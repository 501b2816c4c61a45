-- ===== src/Subagent/World/Accounts.antt =====
-- internal/engine/subagent: the counters of the broker and the size of the mailboxes, through any run.
use marx_agent.Prelude.{
  ℕ, refl, Bool, true, false, String, Option, none, some, List, [], ◌∷◌, All-imp, is_empty, inl,
  inr, Bool-cases, length, arith,
}
use marx_agent.Subagent.Mailbox.{Message, SendError, validate, count_delivered, count_dropped}
use marx_agent.Subagent.Broker.{Broker, register, unregister}
use marx_agent.Subagent.World.{
  World, Surroundings, Action, registers, unregisters, promises, routes, counts, receives,
  counts_delivered, counts_dropped, files, shuts, identified, stamped, promise, promise_valid,
  promise_unless, pick, route_flying, count_delivery, orphan_records, file_orphans, shut, received,
  step, steps,
}
use marx_agent.Subagent.World.Boxes.{register-Every, without-Every, shut-Every}
use marx_agent.Subagent.World.Counters.{
  Offered, receive-Offered, count_delivered-Offered, count_dropped-Offered, new_mailbox-Offered,
  IsSound, IsSound-Kept, register-counters, shut-counters, pick-length,
}
use marx_agent.Subagent.World.Postings.{
  IsAccounted, SameCounters, route_found-IsAccounted, counted-IsAccounted, length-orphan_records,
  file_encoded-IsAccounted, promise_encoded-IsAccounted, change_at-IsAccounted,
}

module _ (encode : Message → Option String) (itoa : ℕ → String) where
  identified-SameCounters :
      (m : Message) (b : Broker) → SameCounters (identified encode itoa m b).1 b
  identified-SameCounters m b = elim (Bool-cases (is_empty m.id)) [
    | inl h ↦ simp h (refl, refl, refl, refl)
    | inr h ↦ simp h (refl, refl, refl, refl)
  ]

  promise_unless-IsAccounted :
      (closed : Bool) (d : ℕ) (e : Surroundings) (m : Message) (w : World)
      → IsAccounted w
      → IsAccounted (promise_unless encode itoa closed d e m w).0
  promise_unless-IsAccounted true d e m w k = k
  promise_unless-IsAccounted false d e m w k =
      let (m', b) = identified encode itoa m w.broker in
      promise_encoded-IsAccounted d e (stamped e m') b w (encode (stamped e m'))
        (identified-SameCounters m w.broker) k

  promise_valid-IsAccounted :
      (d : ℕ) (e : Surroundings) (m : Message) (w : World) (x : Option SendError)
      → IsAccounted w
      → IsAccounted (promise_valid encode itoa d e m w x).0
  promise_valid-IsAccounted d e m w (some x) k = k
  promise_valid-IsAccounted d e m w none k = promise_unless-IsAccounted w.broker.closed d e m w k

  file_orphans-IsAccounted :
      (e : Surroundings) (ms : List Message) (w : World)
      → IsAccounted w
      → IsAccounted (file_orphans encode itoa e ms w).0
  unfolding file_orphans
  file_orphans-IsAccounted e [] w k = k
  file_orphans-IsAccounted e (m ∷ ms) w k =
      file_encoded-IsAccounted e (length (m ∷ ms)) (orphan_records encode itoa w.broker (m ∷ ms)) w
        (length-orphan_records encode itoa w.broker (m ∷ ms)) k

  step-IsAccounted : (a : Action) (w : World) → IsAccounted w → IsAccounted (step encode itoa a w)
  unfolding step promise route_flying count_delivery unregister
  step-IsAccounted (registers agent) w k =
      let (sent_same, delivered_same, orphaned_same) = register-counters agent w.broker in
      record {
        boxes = register-Every IsSound IsSound-Kept.fresh agent w.broker k.boxes;
        boxes_offered =
            All-imp (λ e. Offered w.broker.sent (length w.flying) e.1)
              (λ e. Offered (register agent w.broker).0.sent (length w.flying) e.1)
              (register agent w.broker).0.mailboxes (λ e o. omega (arith, sent_same, o))
              (register-Every (Offered w.broker.sent (length w.flying))
                (new_mailbox-Offered w.broker.sent (length w.flying) (omega (arith, k.delivered)))
                agent w.broker k.boxes_offered);
        delivered = omega (arith, k.delivered, sent_same, delivered_same);
        journalled = omega (arith, k.journalled, sent_same, orphaned_same);
      }
  step-IsAccounted (unregisters agent) w k = record {
    boxes = without-Every IsSound agent w.broker.mailboxes k.boxes;
    boxes_offered =
        without-Every (Offered w.broker.sent (length w.flying)) agent w.broker.mailboxes
          k.boxes_offered;
    delivered = k.delivered;
    journalled = k.journalled;
  }
  step-IsAccounted (promises d e m) w k = promise_valid-IsAccounted d e m w (validate m) k
  step-IsAccounted (routes d) w k =
      route_found-IsAccounted (pick d w.flying).0 (pick d w.flying).1 w (pick-length d w.flying) k
  step-IsAccounted counts w k = counted-IsAccounted w.uncounted w refl k
  step-IsAccounted (receives agent) w k =
      change_at-IsAccounted received agent w IsSound-Kept.given receive-Offered k
  step-IsAccounted (counts_delivered agent) w k =
      change_at-IsAccounted count_delivered agent w IsSound-Kept.counted count_delivered-Offered k
  step-IsAccounted (counts_dropped agent) w k =
      change_at-IsAccounted count_dropped agent w IsSound-Kept.passed count_dropped-Offered k
  step-IsAccounted (files e ms) w k = file_orphans-IsAccounted e ms w k
  step-IsAccounted shuts w k =
      let (sent_same, delivered_same, orphaned_same) = shut-counters w.broker in
      record {
        boxes = shut-Every IsSound w.broker k.boxes;
        boxes_offered =
            All-imp (λ e. Offered w.broker.sent (length w.flying) e.1)
              (λ e. Offered (shut w.broker).sent (length w.flying) e.1) (shut w.broker).mailboxes
              (λ e o. omega (arith, sent_same, o))
              (shut-Every (Offered w.broker.sent (length w.flying)) w.broker k.boxes_offered);
        delivered = omega (arith, k.delivered, sent_same, delivered_same);
        journalled = omega (arith, k.journalled, sent_same, orphaned_same);
      }

  -- In whatever order the goroutines act, each of these stays so if it was so at first: no
  -- mailbox holds more than 64 messages, or more than it has counted as delivered and has yet to
  -- count, since a message is in the channel before it is counted; no mailbox was offered more
  -- messages, those yet to be counted included, than were sent and are not on their way; the
  -- deliveries that the broker has counted or has yet to count and the messages on their way are
  -- no more than the messages sent; and those sent and those filed as orphans are no more than
  -- the records of the journal.
  pub steps-IsAccounted :
      (actions : List Action) (w : World)
      → IsAccounted w
      → IsAccounted (steps encode itoa actions w)
  unfolding steps
  steps-IsAccounted [] w k = k
  steps-IsAccounted (a ∷ rest) w k =
      steps-IsAccounted rest (step encode itoa a w) (step-IsAccounted a w k)
