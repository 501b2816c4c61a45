-- ===== src/Subagent/World/Promises.antt =====
-- internal/engine/subagent/broker.go: what the journal has of the messages that are delivered.
use mathlib.Core.Path.{subst}
use marx_agent.Prelude.{
  zero, suc, ℕ, ◌≡◌, refl, ◌∙◌, sym, Bool, true, false, String, Option, none, some, List, [], ◌∷◌,
  ◌++◌, is_empty, inl, inr, Bool-cases, All, All-append, All-imp, get_elem?-middle, length,
}
use marx_agent.Storage.Buffer.{Record}
use marx_agent.Subagent.Mailbox.{
  Message, Mailbox, SendError, validate, count_delivered, count_dropped,
}
use marx_agent.Subagent.Broker.{Broker, unregister}
use marx_agent.Subagent.World.{
  World, Surroundings, Action, registers, unregisters, promises, routes, counts, receives,
  counts_delivered, counts_dropped, files, shuts, identified, stamped, numbered, record_of, promise,
  promise_open, promise_valid, promise_unless, promise_encoded, pick, route_found, route_flying,
  counted, count_delivery, orphan_records, file_encoded, file_orphans, change_at, received, step,
  steps,
}
use marx_agent.Subagent.World.Boxes.{
  Every, route-Every, register-Every, without-Every, change_box-Every, shut-Every,
}
use marx_agent.Subagent.World.Holding.{
  OfSome, pick-All, Promised, Promised-append, Holds, Holds-Kept,
}

module _ (encode : Message → Option String) where
  -- All that mailboxes hold and all that is on its way was promised.
  pub record IsPromised (w : World) : Type 0 where
    pub boxes : Every (Holds encode w.journal) w.broker.mailboxes
    pub flying : All (λ f. Promised encode w.journal f.1) w.flying

  more-IsPromised :
      (more : List Record) (w : World)
      → IsPromised w
      → Every (Holds encode (w.journal ++ more)) w.broker.mailboxes
        × All (λ f. Promised encode (w.journal ++ more) f.1) w.flying
  more-IsPromised more w k =
      let one = Promised-append encode w.journal more in
      (
        All-imp (λ entry. Holds encode w.journal entry.1)
            (λ entry. Holds encode (w.journal ++ more) entry.1) w.broker.mailboxes
            (λ entry.
              All-imp (Promised encode w.journal) (Promised encode (w.journal ++ more))
                entry.1.waiting one)
            k.boxes,
        All-imp (λ f. Promised encode w.journal f.1) (λ f. Promised encode (w.journal ++ more) f.1)
            w.flying (λ f. one f.1) k.flying,
      )

  encode-numbered :
      (n : Option ℕ) (m : Message)
      → encode (record (numbered n m) { sequence = m.sequence }) ≡ encode m
  encode-numbered none m = refl
  encode-numbered (some n) m = refl

  promise_encoded-IsPromised :
      (d : ℕ) (e : Surroundings) (m : Message) (b : Broker) (w : World) (t : Option String)
      → encode m ≡ t
      → b.mailboxes ≡ w.broker.mailboxes
      → IsPromised w
      → IsPromised (promise_encoded d e m b w t).0
  promise_encoded-IsPromised d e m b w none h same k = record {
    boxes = subst (Every (Holds encode w.journal)) (sym same) k.boxes;
    flying = k.flying;
  }
  promise_encoded-IsPromised d e m b w (some text) h same k =
      let r = record_of b m text in
      let (boxes, flying) = more-IsPromised (r ∷ []) w k in
      let new : Promised encode (w.journal ++ r ∷ []) (numbered e.last_seq m) = (
        length w.journal,
        r,
        m.sequence,
        get_elem?-middle w.journal r [],
        encode-numbered e.last_seq m ∙ h,
      ) in
      elim (Bool-cases e.writes) [
        | inl writes ↦ simp writes (record {
          boxes = subst (Every (Holds encode (w.journal ++ r ∷ []))) (sym same) boxes;
          flying =
              All-append (λ f. Promised encode (w.journal ++ r ∷ []) f.1) w.flying
                ((d, numbered e.last_seq m) ∷ []) flying (new, tt);
        })
        | inr refuses ↦ simp refuses (record {
          boxes = subst (Every (Holds encode w.journal)) (sym same) k.boxes;
          flying = k.flying;
        })
      ]

  route_found-IsPromised :
      (found : Option Message) (others : List (ℕ × Message)) (w : World)
      → OfSome (Promised encode w.journal) found
      → All (λ f. Promised encode w.journal f.1) others
      → IsPromised w
      → IsPromised (route_found (found, others) w)
  route_found-IsPromised none others w h rest k = k
  route_found-IsPromised (some m) others w h rest k = record {
    boxes =
        route-Every (Holds encode w.journal) (Promised encode w.journal)
          (Holds-Kept encode w.journal) m w.broker h k.boxes;
    flying = rest;
  }

  counted-IsPromised : (n : ℕ) (w : World) → IsPromised w → IsPromised (counted n w)
  counted-IsPromised zero w k = k
  counted-IsPromised (suc n) w k = record { boxes = k.boxes; flying = k.flying }

  file_encoded-IsPromised :
      (e : Surroundings) (n : ℕ) (rs : Option (List Record)) (w : World)
      → IsPromised w
      → IsPromised (file_encoded e n rs w).0
  file_encoded-IsPromised e n none w k = k
  file_encoded-IsPromised e n (some rs) w k =
      let (boxes, flying) = more-IsPromised rs w k in
      elim (Bool-cases e.writes) [
        | inl writes ↦ simp writes (record { boxes = boxes; flying = flying })
        | inr refuses ↦ simp refuses k
      ]

  module _ (itoa : ℕ → String) where
    identified-mailboxes :
        (m : Message) (b : Broker) → (identified encode itoa m b).1.mailboxes ≡ b.mailboxes
    identified-mailboxes m b = elim (Bool-cases (is_empty m.id)) [
      | inl h ↦ simp h refl
      | inr h ↦ simp h refl
    ]

    promise_open-IsPromised :
        (d : ℕ) (e : Surroundings) (m : Message) (w : World)
        → IsPromised w
        → IsPromised (promise_open encode itoa d e m w).0
    promise_open-IsPromised d e m w k =
        let (m', b) = identified encode itoa m w.broker in
        let same : b.mailboxes ≡ w.broker.mailboxes = identified-mailboxes m w.broker in
        promise_encoded-IsPromised d e (stamped e m') b w (encode (stamped e m')) refl same k

    promise_unless-IsPromised :
        (closed : Bool) (d : ℕ) (e : Surroundings) (m : Message) (w : World)
        → IsPromised w
        → IsPromised (promise_unless encode itoa closed d e m w).0
    promise_unless-IsPromised true d e m w k = k
    promise_unless-IsPromised false d e m w k = promise_open-IsPromised d e m w k

    promise_valid-IsPromised :
        (d : ℕ) (e : Surroundings) (m : Message) (w : World) (x : Option SendError)
        → IsPromised w
        → IsPromised (promise_valid encode itoa d e m w x).0
    promise_valid-IsPromised d e m w (some x) k = k
    promise_valid-IsPromised d e m w none k = promise_unless-IsPromised w.broker.closed d e m w k

    file_orphans-IsPromised :
        (e : Surroundings) (ms : List Message) (w : World)
        → IsPromised w
        → IsPromised (file_orphans encode itoa e ms w).0
    unfolding file_orphans
    file_orphans-IsPromised e [] w k = k
    file_orphans-IsPromised e (m ∷ ms) w k =
        file_encoded-IsPromised e (length (m ∷ ms)) (orphan_records encode itoa w.broker (m ∷ ms)) w
          k

    change_at-IsPromised :
        (f : Mailbox → Mailbox) (agent : String) (w : World)
        → ((box : Mailbox) → Holds encode w.journal box → Holds encode w.journal (f box))
        → IsPromised w
        → IsPromised (record w { broker = change_at f agent w.broker })
    change_at-IsPromised f agent w g k = record {
      boxes = change_box-Every (Holds encode w.journal) f agent w.broker.mailboxes g k.boxes;
      flying = k.flying;
    }

    step-IsPromised : (a : Action) (w : World) → IsPromised w → IsPromised (step encode itoa a w)
    unfolding step promise route_flying count_delivery unregister
    step-IsPromised (registers agent) w k = record {
      boxes =
          register-Every (Holds encode w.journal) (Holds-Kept encode w.journal).fresh agent w.broker
            k.boxes;
      flying = k.flying;
    }
    step-IsPromised (unregisters agent) w k = record {
      boxes = without-Every (Holds encode w.journal) agent w.broker.mailboxes k.boxes;
      flying = k.flying;
    }
    step-IsPromised (promises d e m) w k = promise_valid-IsPromised d e m w (validate m) k
    step-IsPromised (routes d) w k =
        let (others, found) = pick-All (Promised encode w.journal) d w.flying k.flying in
        route_found-IsPromised (pick d w.flying).0 (pick d w.flying).1 w found others k
    step-IsPromised counts w k = counted-IsPromised w.uncounted w k
    step-IsPromised (receives agent) w k =
        change_at-IsPromised received agent w (Holds-Kept encode w.journal).given k
    step-IsPromised (counts_delivered agent) w k =
        change_at-IsPromised count_delivered agent w (Holds-Kept encode w.journal).counted k
    step-IsPromised (counts_dropped agent) w k =
        change_at-IsPromised count_dropped agent w (Holds-Kept encode w.journal).passed k
    step-IsPromised (files e ms) w k = file_orphans-IsPromised e ms w k
    step-IsPromised shuts w k = record {
      boxes = shut-Every (Holds encode w.journal) w.broker k.boxes;
      flying = k.flying;
    }

    -- Journal first: in whatever order the goroutines act, and whatever the journal answers,
    -- every message that a mailbox of the broker holds or that is on its way to one has a record
    -- in the journal that encodes it as it was before it got its sequence number, if this was so
    -- at first.
    pub steps-IsPromised :
        (actions : List Action) (w : World)
        → IsPromised w
        → IsPromised (steps encode itoa actions w)
    unfolding steps
    steps-IsPromised [] w k = k
    steps-IsPromised (a ∷ rest) w k =
        steps-IsPromised rest (step encode itoa a w) (step-IsPromised a w k)
