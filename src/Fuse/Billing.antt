-- ===== src/Fuse/Billing.antt =====
-- llm-fuse.ts: the billing fuse, over whole runs.
use phus.Prelude.{ℕ, ◌+◌, ◌≤◌, String, ◌≡◌, refl, ◌∙◌, true, false, List, [], ◌∷◌, arith, All}
use phus.Prelude.Text.{codes}
use phus.Fuse.{LlmFuse, RobustnessConfig, billing_pattern, check, report, reset_turn}
use phus.Fuse.Trace.{Event, Trace, observe, run, IsBefore}

observe-open :
    (u : ℕ) (e : Event) (tr : Trace)
    → IsBefore u e
    → u ≤ tr.fuse.billing_open_until
    → (u ≤ (observe e tr).fuse.billing_open_until)
      × ((observe e tr).sent ≡ tr.sent)
      × ((observe e tr).counted ≡ tr.counted)
unfolding observe check report reset_turn
observe-open u Event.new_turn tr b le = (le, refl, refl)
observe-open u (Event.request cfg now) tr b le = ground arith
observe-open u (Event.failure cfg now now' msg) tr b le = ground arith

run-open :
    (u : ℕ) (es : List Event) (tr : Trace)
    → All (IsBefore u) es
    → u ≤ tr.fuse.billing_open_until
    → ((run es tr).sent ≡ tr.sent) × ((run es tr).counted ≡ tr.counted)
unfolding run
run-open u [] tr b le = (refl, refl)
run-open u (e ∷ es) tr (b, bs) le =
    let (le', same_sent, same_counted) = observe-open u e tr b le in
    let (s, c) = run-open u es (observe e tr) bs le' in (s ∙ same_sent, c ∙ same_counted)

-- A billing error on a closed fuse stops all traffic: whatever turns, requests and further errors
-- follow before the fuse's time has passed, no request is sent and none is counted. A further error
-- in between neither shortens nor lifts the block.
pub billing_blocks :
    (cfg : RobustnessConfig) (now now' : ℕ) (msg : String) (tr : Trace) (es : List Event)
    → billing_pattern (codes msg) ≡ true
    → tr.fuse.billing_open_until ≤ now
    → All (IsBefore (now' + cfg.billing_fuse_ms)) es
    → ((run (Event.failure cfg now now' msg ∷ es) tr).sent ≡ tr.sent)
      × ((run (Event.failure cfg now now' msg ∷ es) tr).counted ≡ tr.counted)
unfolding run observe report
billing_blocks cfg now now' msg tr es matches shut b =
    run-open (now' + cfg.billing_fuse_ms) es (record tr { fuse = report cfg now now' msg tr.fuse })
      b (ground arith)

-- Any other error changes nothing.
pub report_other :
    (cfg : RobustnessConfig) (now now' : ℕ) (msg : String) (fuse : LlmFuse)
    → billing_pattern (codes msg) ≡ false
    → report cfg now now' msg fuse ≡ fuse
unfolding report
report_other cfg now now' msg fuse e = rw e
