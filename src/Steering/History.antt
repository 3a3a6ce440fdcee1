-- ===== src/Steering/History.antt =====
-- packages/core/src/runtime/steering/index.ts: the inbox is a queue, each of whose messages is
-- delivered once and in order.
use phus.Prelude.{
  ℕ, ◌+◌, ◌≤◌, String, ◌≡◌, refl, sym, ap, ◌∙◌, inl, inr, Option, List, [], ◌∷◌, ◌++◌, arith, ◌==◌,
  Bool-cases, length, drop, length-append, drop-eq-nil, length-drop, drop-append_le,
}
use phus.Steering.{
  SteeringEvent, enqueued, drained, Envelope, SteeringInbox, enqueue_message, drain_messages,
  new_inbox,
}

pub data Command (J : Type 0) : Type 0 where
  send : Envelope J → Option String → Command J
  receive : Command J

-- What the inbox promises: the messages sent so far, of which the first `delivered` are taken out.
pub record Channel (J : Type 0) : Type 0 where
  pub sent : List (Envelope J)
  pub delivered : ℕ

-- The messages that `drain` events count.
abbrev pub drained_count : List SteeringEvent → ℕ
drained_count [] = 0
drained_count (enqueued sender reason depth ∷ log) = drained_count log
drained_count (drained count ∷ log) = count + drained_count log

drained_count-append :
    (log new : List SteeringEvent)
    → drained_count (log ++ new) ≡ drained_count log + drained_count new
drained_count-append [] new = omega arith
drained_count-append (enqueued sender reason depth ∷ log) new = drained_count-append log new
drained_count-append (drained count ∷ log) new = omega (arith, drained_count-append log new)

module _ {J : Type 0} where
  abbrev pub run : List (Command J) → SteeringInbox J → SteeringInbox J × List (List (Envelope J))
  run [] inbox = (inbox, [])
  run (send envelope reason ∷ commands) inbox = run commands (enqueue_message envelope reason inbox)
  run (receive ∷ commands) inbox =
      let (next, batch) = drain_messages inbox in
      let (end, batches) = run commands next in (end, batch ∷ batches)

  -- The same commands on the abstract channel.
  abbrev pub run_channel : List (Command J) → Channel J → Channel J × List (List (Envelope J))
  run_channel [] c = (c, [])
  run_channel (send envelope reason ∷ commands) c =
      run_channel commands (record c { sent = c.sent ++ envelope ∷ [] })
  run_channel (receive ∷ commands) c =
      let (end, batches) = run_channel commands (record c { delivered = length c.sent }) in
      (end, drop c.delivered c.sent ∷ batches)

  pub record Refines (inbox : SteeringInbox J) (c : Channel J) : Type 0 where
    pub queue : inbox.queue ≡ drop c.delivered c.sent
    pub delivered : c.delivered ≤ length c.sent
    -- The log tells of every message that is taken out.
    pub logged : drained_count inbox.log ≡ c.delivered

  enqueue-Refines :
      (envelope : Envelope J) (reason : Option String) (inbox : SteeringInbox J) (c : Channel J)
      → Refines inbox c
      → Refines
          (enqueue_message envelope reason inbox)
          (record c { sent = c.sent ++ envelope ∷ [] })
  unfolding enqueue_message
  enqueue-Refines envelope reason inbox c h = record {
    queue =
        ap (λ q. q ++ envelope ∷ []) h.queue
        ∙ sym (drop-append_le c.delivered c.sent (envelope ∷ []) h.delivered);
    delivered = omega (arith, length-append c.sent (envelope ∷ []), h.delivered);
    logged =
        drained_count-append inbox.log (enqueued envelope.sender reason _ ∷ [])
        ∙ (omega (arith, h.logged));
  }

  length_zero : (xs : List (Envelope J)) → length xs ≡ 0 → xs ≡ []
  length_zero [] h = refl
  length_zero (x ∷ xs) h = absurd (omega arith)

  cons_eq :
      {x y : List (Envelope J)} {xs ys : List (List (Envelope J))}
      → x ≡ y
      → xs ≡ ys
      → x ∷ xs ≡ y ∷ ys
  cons_eq h k = cc

  drop-all : (xs : List (Envelope J)) → [] ≡ drop (length xs) xs
  drop-all xs = sym (drop-eq-nil (length xs) xs (omega arith))

  drain-Refines :
      (inbox : SteeringInbox J) (c : Channel J)
      → Refines inbox c
      → Refines (drain_messages inbox).0 (record c { delivered = length c.sent })
        × ((drain_messages inbox).1 ≡ drop c.delivered c.sent)
  unfolding drain_messages
  drain-Refines inbox c h =
      let count = length-drop c.delivered c.sent in
      let same : length inbox.queue ≡ length (drop c.delivered c.sent) = ap length h.queue in
      elim (Bool-cases (length inbox.queue == 0)) [
        | inl t ↦
            let zero_left : length inbox.queue ≡ 0 = ground arith in
            let all_out : c.delivered ≡ length c.sent =
              omega (arith, count, same, zero_left, h.delivered) in
            rw t (
              record {
                queue = h.queue ∙ ap (λ n. drop n c.sent) all_out;
                delivered = omega arith;
                logged = h.logged ∙ all_out;
              },
              (sym (length_zero inbox.queue zero_left) ∙ h.queue),
            )
        | inr f ↦ rw f (
          record {
            queue = drop-all c.sent;
            delivered = omega arith;
            logged =
                drained_count-append inbox.log (drained (length inbox.queue) ∷ [])
                ∙ (omega (arith, h.logged, count, same, h.delivered));
          },
          h.queue,
        )
      ]

  -- Over any run of sends and receives from an inbox that refines a channel: each receive takes out
  -- what the channel gives, all messages sent since the one before and in the order of sending; and the inbox
  -- refines the channel at the end, where its log counts all that was taken out.
  pub run-Refines :
      (commands : List (Command J)) (inbox : SteeringInbox J) (c : Channel J)
      → Refines inbox c
      → Refines (run commands inbox).0 (run_channel commands c).0
        × ((run commands inbox).1 ≡ (run_channel commands c).1)
  run-Refines [] inbox c h = (h, refl)
  run-Refines (send envelope reason ∷ commands) inbox c h =
      run-Refines commands _ _ (enqueue-Refines envelope reason inbox c h)
  run-Refines (receive ∷ commands) inbox c h =
      let (next, batch) = drain-Refines inbox c h in
      let (end, batches) =
        run-Refines commands (drain_messages inbox).0 (record c { delivered = length c.sent })
          next in
      (end, cons_eq batch batches)

  -- A new inbox refines the channel on which nothing is sent.
  pub new_inbox-Refines : Refines new_inbox (record { sent = []; delivered = 0 })
  new_inbox-Refines = record { queue = refl; delivered = omega arith; logged = refl }
