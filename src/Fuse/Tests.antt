-- ===== src/Fuse/Tests.antt =====
-- Runs of the fuse, and its theorems at concrete runs.
use phus.Prelude.{◌+◌, ◌≤◌, ◌≡◌, refl, true, List, [], ◌∷◌, arith, length, filter}
use phus.Prelude.Text.{codes}
use phus.Fuse.{
  RobustnessConfig, default_robustness, billing_pattern, check, report, reset_turn, count_call,
  shift_stale, status, is_recent, is_open,
}
use phus.Fuse.Trace.{Event, start, observe, run}
use phus.Fuse.Budget.{turn_budget_holds}
use phus.Fuse.Hours.{hour_budget_holds, status_counts}
use phus.Fuse.Billing.{billing_blocks}

fuse : Unit {0}
unfolding run observe check report reset_turn count_call shift_stale status billing_pattern is_open
fuse = tt

abbrev two_calls : RobustnessConfig
two_calls = record default_robustness { llm_calls_per_turn = 2; llm_calls_per_hour = 2 }

abbrev three_requests : List Event
three_requests =
    Event.request two_calls 10 ∷ Event.request two_calls 20 ∷ Event.request two_calls 30 ∷ []

third_refused : (run three_requests start).sent ≡ 10 ∷ 20 ∷ []
unfolding fuse
third_refused = refl

abbrev hours_apart : List Event
hours_apart =
    Event.request two_calls 0
    ∷ Event.request two_calls 1800000
    ∷ Event.new_turn
    ∷ Event.request two_calls 3600001
    ∷ []

oldest_expired : (run hours_apart start).sent ≡ 0 ∷ 1800000 ∷ 3600001 ∷ []
unfolding fuse
oldest_expired = refl

patterns :
    (billing_pattern (codes "HTTP 402 Payment Required") ≡ true)
    × (billing_pattern (codes "Insufficient_Balance") ≡ true)
    × (billing_pattern (codes "error: 余额不足") ≡ true)
unfolding fuse
patterns = (refl, refl, refl)

abbrev while_open : List Event
while_open =
    Event.new_turn
    ∷ Event.request two_calls 1000
    ∷ Event.failure two_calls 2000 2001 "402"
    ∷ Event.request two_calls 600000
    ∷ []

turn_budget_holds_example : length (run (Event.new_turn ∷ three_requests) start).sent ≤ 0 + 2
turn_budget_holds_example = turn_budget_holds 2 start three_requests (omega arith)

hour_budget_holds_example : length (filter (is_recent 3600001) (run hours_apart start).sent) ≤ 2
hour_budget_holds_example = hour_budget_holds 2 hours_apart (omega arith) 3600001 (omega arith)

status_counts_example :
    (status 3600001 (run hours_apart start).fuse).calls_this_hour
    ≡ length (filter (is_recent 3600001) (run hours_apart start).counted)
status_counts_example = status_counts 2 hours_apart (omega arith) 3600001 (omega arith)

billing_blocks_example :
    ((run (Event.failure two_calls 500 501 "402" ∷ while_open) start).sent ≡ [])
    × ((run (Event.failure two_calls 500 501 "402" ∷ while_open) start).counted ≡ [])
unfolding fuse
billing_blocks_example =
    billing_blocks two_calls 500 501 "402" start while_open refl (omega arith) (omega arith)
