-- ===== src/Subagent/World/Postings.antt =====
-- internal/engine/subagent: what an action on a broker does to the counters.
use mathlib.Core.Path.{subst}
use marx_agent.Prelude.{
  ℕ, zero, suc, ◌+◌, ◌≡◌, ◌≤◌, refl, ap, sym, true, String, Option, none, some, List, [], ◌∷◌, ◌++◌,
  All-imp, inl, inr, Bool-cases, length, length-append, arith,
}
use marx_agent.Storage.Buffer.{Record}
use marx_agent.Subagent.Mailbox.{Message, Mailbox}
use marx_agent.Subagent.Broker.{Broker, route}
use marx_agent.Subagent.World.{
  World, Surroundings, numbered, record_of, promise_encoded, route_found, counted, orphan_records,
  add_orphan, file_encoded, change_at,
}
use marx_agent.Subagent.World.Boxes.{Every, route-turns, route-Every, change_box-Every}
use marx_agent.Subagent.World.Counters.{
  Offered, deliver-Offered, IsSound, IsSound-Kept, Anything, some_count, count_if-le,
}

-- The counters of the mailboxes, and those of the broker: what is counted as delivered, what is delivered and not counted yet
-- and what is on its way were all sent, and all that was sent or filed is in the journal.
pub record IsAccounted (w : World) : Type 0 where
  pub boxes : Every IsSound w.broker.mailboxes
  pub boxes_offered : Every (Offered w.broker.sent (length w.flying)) w.broker.mailboxes
  pub delivered : w.broker.delivered + w.uncounted + length w.flying ≤ w.broker.sent
  pub journalled : w.broker.sent + w.broker.orphaned ≤ length w.journal

pub route_found-IsAccounted :
    (found : Option Message) (others : List (ℕ × Message)) (w : World)
    → some_count found + length others ≡ length w.flying
    → IsAccounted w
    → IsAccounted (route_found (found, others) w)
unfolding route
route_found-IsAccounted none others w size k = k
route_found-IsAccounted (some m) others w size k = record {
  boxes = route-Every IsSound Anything IsSound-Kept m w.broker tt k.boxes;
  boxes_offered =
      route-turns (Offered w.broker.sent (length w.flying)) (Offered w.broker.sent (length others))
        m (λ box h. deliver-Offered w.broker.sent (length others) m box (omega (arith, size, h)))
        (λ box h. omega (arith, size, h)) w.broker k.boxes_offered;
  delivered = omega (arith, k.delivered, size, count_if-le (route m w.broker).1 w.uncounted);
  journalled = k.journalled;
}

pub counted-IsAccounted :
    (n : ℕ) (w : World) → n ≡ w.uncounted → IsAccounted w → IsAccounted (counted n w)
counted-IsAccounted zero w e k = k
counted-IsAccounted (suc n) w e k = record {
  boxes = k.boxes;
  boxes_offered = k.boxes_offered;
  delivered = omega (arith, k.delivered, e);
  journalled = k.journalled;
}

add_orphan-some :
    (b : Broker) (m : Message) (t : Option String) (rest : Option (List Record)) (rs : List Record)
    → add_orphan b m t rest ≡ some rs
    → (tail : List Record) × (rest ≡ some tail) × (length rs ≡ suc (length tail))
add_orphan-some b m (some text) (some tail) rs h =
    let same : record_of b m text ∷ tail ≡ rs = cc in (tail, refl, ap length (sym same))
add_orphan-some b m none rest rs h = ground (arith, h)
add_orphan-some b m (some text) none rs h = ground (arith, h)

abbrev pub SameCounters : Broker → Broker → Type 0
SameCounters b c =
    (b.mailboxes ≡ c.mailboxes)
    × (b.sent ≡ c.sent)
    × (b.delivered ≡ c.delivered)
    × (b.orphaned ≡ c.orphaned)

pub length-orphan_records :
    (encode : Message → Option String) (itoa : ℕ → String) (b : Broker) (ms : List Message)
    (rs : List Record)
    → orphan_records encode itoa b ms ≡ some rs
    → length rs ≡ length ms
unfolding orphan_records
length-orphan_records encode itoa b [] rs h = let same : [] ≡ rs = cc in ap length (sym same)
length-orphan_records encode itoa b (m ∷ ms) rs h =
    let (tail, more, size) =
      add_orphan-some b m (encode (record m { orphan = true })) (orphan_records encode itoa b ms) rs
        h in
    let rest = length-orphan_records encode itoa b ms tail more in omega (arith, size, rest)

pub file_encoded-IsAccounted :
    (e : Surroundings) (n : ℕ) (rs : Option (List Record)) (w : World)
    → ((new : List Record) → rs ≡ some new → length new ≡ n)
    → IsAccounted w
    → IsAccounted (file_encoded e n rs w).0
file_encoded-IsAccounted e n none w f k = k
file_encoded-IsAccounted e n (some rs) w f k = elim (Bool-cases e.writes) [
  | inl writes ↦
      let size = length-append w.journal rs in
      simp writes (record {
        boxes = k.boxes;
        boxes_offered = k.boxes_offered;
        delivered = k.delivered;
        journalled = omega (arith, k.journalled, size, f rs refl);
      })
  | inr refuses ↦ simp refuses k
]

-- The same mailboxes, where as many messages are on their way more as are sent more.
moved-Offered :
    (b c : Broker) (n sent flying : ℕ)
    → b.mailboxes ≡ c.mailboxes
    → sent ≡ n + c.sent
    → (f : ℕ) → flying ≡ n + f
    → Every (Offered c.sent f) c.mailboxes
    → Every (Offered sent flying) b.mailboxes
moved-Offered b c n sent flying same more f way h = subst (Every (Offered sent flying)) (sym same) (
    All-imp (λ e. Offered c.sent f e.1) (λ e. Offered sent flying e.1) c.mailboxes
      (λ e o. omega (arith, more, way, o)) h)

pub promise_encoded-IsAccounted :
    (d : ℕ) (e : Surroundings) (m : Message) (b : Broker) (w : World) (t : Option String)
    → SameCounters b w.broker
    → IsAccounted w
    → IsAccounted (promise_encoded d e m b w t).0
promise_encoded-IsAccounted d e m b w none (boxes, sent_same, delivered_same, orphaned_same) k =
    record {
      boxes = subst (Every IsSound) (sym boxes) k.boxes;
      boxes_offered =
          moved-Offered b w.broker 0 b.sent (length w.flying) boxes (omega (arith, sent_same))
            (length w.flying) (omega arith) k.boxes_offered;
      delivered = omega (arith, k.delivered, sent_same, delivered_same);
      journalled = omega (arith, k.journalled, sent_same, orphaned_same);
    }
promise_encoded-IsAccounted d e m b w (some text) (boxes, sent_same, delivered_same, orphaned_same)
      k =
    let kept_boxes = subst (Every IsSound) (sym boxes) k.boxes in
    let one = length-append w.flying ((d, numbered e.last_seq m) ∷ []) in
    let more = length-append w.journal (record_of b m text ∷ []) in
    elim (Bool-cases e.writes) [
      | inl writes ↦ simp writes (record {
        boxes = kept_boxes;
        boxes_offered =
            moved-Offered b w.broker 1 (suc b.sent)
              (length (w.flying ++ (d, numbered e.last_seq m) ∷ [])) boxes
              (omega (arith, sent_same)) (length w.flying) (omega (arith, one)) k.boxes_offered;
        delivered = omega (arith, k.delivered, sent_same, delivered_same, one);
        journalled = omega (arith, k.journalled, sent_same, orphaned_same, more);
      })
      | inr refuses ↦ simp refuses (record {
        boxes = kept_boxes;
        boxes_offered =
            moved-Offered b w.broker 0 b.sent (length w.flying) boxes (omega (arith, sent_same))
              (length w.flying) (omega arith) k.boxes_offered;
        delivered = omega (arith, k.delivered, sent_same, delivered_same);
        journalled = omega (arith, k.journalled, sent_same, orphaned_same);
      })
    ]

pub change_at-IsAccounted :
    (f : Mailbox → Mailbox) (agent : String) (w : World)
    → ((box : Mailbox) → IsSound box → IsSound (f box))
    → ((sent flying : ℕ) (box : Mailbox) → Offered sent flying box → Offered sent flying (f box))
    → IsAccounted w
    → IsAccounted (record w { broker = change_at f agent w.broker })
change_at-IsAccounted f agent w g o k = record {
  boxes = change_box-Every IsSound f agent w.broker.mailboxes g k.boxes;
  boxes_offered =
      change_box-Every (Offered w.broker.sent (length w.flying)) f agent w.broker.mailboxes
        (o w.broker.sent (length w.flying)) k.boxes_offered;
  delivered = k.delivered;
  journalled = k.journalled;
}
