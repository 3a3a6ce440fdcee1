-- ===== src/Fuse/Budget.antt =====
-- llm-fuse.ts: the budget of a turn, over whole runs.
use phus.Prelude.{ℕ, ◌+◌, ◌-◌, ◌≤◌, List, [], ◌∷◌, arith, length, length-append, All}
use phus.Fuse.{check, report, reset_turn, count_call}
use phus.Fuse.Trace.{Event, Trace, observe, run, InTurn}

observe-sent_turn :
    (n : ℕ) (e : Event) (tr : Trace)
    → InTurn n e
    → length (observe e tr).sent + (n - (observe e tr).fuse.calls_this_turn)
      ≤ length tr.sent + (n - tr.fuse.calls_this_turn)
unfolding observe check count_call report
observe-sent_turn n Event.new_turn tr h = absurd h
observe-sent_turn n (Event.request cfg now) tr h = ground (arith, length-append tr.sent (now ∷ []))
observe-sent_turn n (Event.failure cfg now now' msg) tr h = ground arith

run-sent_turn :
    (n : ℕ) (es : List Event) (tr : Trace)
    → All (InTurn n) es
    → length (run es tr).sent ≤ length tr.sent + (n - tr.fuse.calls_this_turn)
unfolding run
run-sent_turn n [] tr h = omega arith
run-sent_turn n (e ∷ es) tr (h, hs) =
    omega (arith, observe-sent_turn n e tr h, run-sent_turn n es (observe e tr) hs)

-- From the start of a turn, whatever checks and reports follow up to the next turn, each check
-- under a turn budget from 1 to n, at most n more requests are sent.
pub turn_budget_holds :
    (n : ℕ) (tr : Trace) (es : List Event)
    → All (InTurn n) es
    → length (run (Event.new_turn ∷ es) tr).sent ≤ length tr.sent + n
unfolding run observe reset_turn
turn_budget_holds n tr es h =
    omega (arith, run-sent_turn n es (record tr { fuse = reset_turn tr.fuse }) h)
