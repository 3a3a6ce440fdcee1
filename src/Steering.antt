-- ===== src/Steering.antt =====
-- packages/core/src/runtime/steering/index.ts: PiSteeringInbox. The calls of `onLog` are a list.
pub mod History
mod Tests
use phus.Prelude.{ℕ, ◌+◌, String, Option, List, [], ◌∷◌, ◌++◌, ◌==◌, if◌then◌else◌, length}

-- What `onLog` is told.
pub data SteeringEvent : Type 0 where
  enqueued : String → Option String → ℕ → SteeringEvent
  drained : ℕ → SteeringEvent

-- `Envelope`: its sender, and the rest.
pub record Envelope (J : Type 0) : Type 0 where
  pub sender : String
  pub body : J

pub record SteeringInbox (J : Type 0) : Type 0 where
  pub queue : List (Envelope J)
  pub log : List SteeringEvent

module _ {J : Type 0} where
  abbrev pub new_inbox : SteeringInbox J
  new_inbox = record { queue = []; log = [] }

  unfoldable pub enqueue_message : Envelope J → Option String → SteeringInbox J → SteeringInbox J
  enqueue_message envelope reason inbox =
      let queue = inbox.queue ++ envelope ∷ [] in
      record {
        queue = queue;
        log = inbox.log ++ enqueued envelope.sender reason (length queue) ∷ [];
      }

  unfoldable pub drain_messages : SteeringInbox J → SteeringInbox J × List (Envelope J)
  drain_messages inbox = if length inbox.queue == 0 then (inbox, []) else (
    record { queue = []; log = inbox.log ++ drained (length inbox.queue) ∷ [] },
    inbox.queue,
  )

  abbrev pub message_count : SteeringInbox J → ℕ
  message_count inbox = length inbox.queue

  abbrev pub peek : SteeringInbox J → List (Envelope J)
  peek inbox = inbox.queue
