-- ===== src/Steering/Tests.antt =====
-- Runs of the inbox, and its theorem at a concrete run.
use phus.Prelude.{ℕ, ◌≡◌, refl, none, some, List, [], ◌∷◌}
use phus.Steering.{Envelope, new_inbox, enqueue_message, drain_messages}
use phus.Steering.History.{
  Command, send, receive, Channel, Refines, run, run_channel, new_inbox-Refines, run-Refines,
}

abbrev envelope : ℕ → Envelope ℕ
envelope n = record { sender = "user"; body = n }

abbrev commands : List (Command ℕ)
commands =
    send (envelope 1) none
    ∷ send (envelope 2) (some "nudge")
    ∷ receive
    ∷ receive
    ∷ send (envelope 3) none
    ∷ receive
    ∷ []

abbrev nothing_sent : Channel ℕ
nothing_sent = record { sent = []; delivered = 0 }

run-Refines_example :
    Refines (run commands new_inbox).0 (run_channel commands nothing_sent).0
    × ((run commands new_inbox).1 ≡ (run_channel commands nothing_sent).1)
run-Refines_example = run-Refines commands new_inbox nothing_sent new_inbox-Refines

drains : (run commands new_inbox).1 ≡ (envelope 1 ∷ envelope 2 ∷ []) ∷ [] ∷ (envelope 3 ∷ []) ∷ []
unfolding enqueue_message drain_messages
drains = refl
