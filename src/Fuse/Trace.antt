-- ===== src/Fuse/Trace.antt =====
-- llm-fuse.ts, whole runs: what the process does with one fuse, in any order and at any length.
use phus.Prelude.{ℕ, ◌≤◌, ◌<◌, String, Option, none, some, List, [], ◌∷◌, ◌++◌}
use phus.Fuse.{
  RobustnessConfig, FuseTripReason, billing, LlmFuse, new_fuse, reset_turn, check, report,
}

-- A configuration is read afresh at each check, so each event carries its own.
pub data Event : Type 0 where
  new_turn : Event
  request : RobustnessConfig → ℕ → Event
  failure : RobustnessConfig → ℕ → ℕ → String → Event

-- The fuse with the history that a run leaves: the calls that were counted, blocked by a budget or
-- not, and those that were sent.
pub record Trace : Type 0 where
  pub fuse : LlmFuse
  pub counted : List ℕ
  pub sent : List ℕ

abbrev pub start : Trace
start = record { fuse = new_fuse; counted = []; sent = [] }

abbrev pub add_counted : Option FuseTripReason → ℕ → List ℕ → List ℕ
add_counted (some billing) now ts = ts
add_counted _ now ts = ts ++ now ∷ []

abbrev pub add_sent : Option FuseTripReason → ℕ → List ℕ → List ℕ
add_sent none now ts = ts ++ now ∷ []
add_sent (some reason) now ts = ts

unfoldable pub observe : Event → Trace → Trace
observe new_turn tr = record tr { fuse = reset_turn tr.fuse }
observe (request cfg now) tr =
    let (fuse, verdict) = check cfg now tr.fuse in
    record {
      fuse = fuse;
      counted = add_counted verdict now tr.counted;
      sent = add_sent verdict now tr.sent;
    }
observe (failure cfg now now' msg) tr = record tr { fuse = report cfg now now' msg tr.fuse }

unfoldable pub run : List Event → Trace → Trace
run [] tr = tr
run (e ∷ es) tr = run es (observe e tr)

-- One turn: no reset, and each check under a turn budget from 1 to `n`.
abbrev pub InTurn : ℕ → Event → Type 0
InTurn n new_turn = ⊥
InTurn n (request cfg now) = (0 < cfg.llm_calls_per_turn) × (cfg.llm_calls_per_turn ≤ n)
InTurn n (failure cfg now now' msg) = Unit

-- Each check under an hourly budget from 1 to `n`, the clock not running backwards from `then'`.
abbrev pub InHours : ℕ → ℕ → List Event → Type 0
InHours n then' [] = Unit
InHours n then' (request cfg now ∷ es) =
    (0 < cfg.llm_calls_per_hour) × (cfg.llm_calls_per_hour ≤ n) × (then' ≤ now) × InHours n now es
InHours n then' (e ∷ es) = InHours n then' es

-- The reading of the clock at the last check.
abbrev pub last_check : ℕ → List Event → ℕ
last_check then' [] = then'
last_check then' (request cfg now ∷ es) = last_check now es
last_check then' (e ∷ es) = last_check then' es

-- Before `u`, by the clock that each event reads.
abbrev pub IsBefore : ℕ → Event → Type 0
IsBefore u new_turn = Unit
IsBefore u (request cfg now) = now < u
IsBefore u (failure cfg now now' msg) = now ≤ now'
