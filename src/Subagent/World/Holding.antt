-- ===== src/Subagent/World/Holding.antt =====
-- internal/engine/subagent/broker.go: mailboxes that hold what the journal has.
use marx_agent.Prelude.{
  ltb, ℕ, zero, suc, ◌≡◌, String, Option, none, some, List, [], ◌∷◌, ◌++◌, ◌==◌, inl, inr,
  Bool-cases, All, All-append, get_elem?, get_elem?-append, length,
}
use marx_agent.Storage.Buffer.{Record}
use marx_agent.Subagent.Mailbox.{
  Message, Mailbox, mailbox_capacity, new_mailbox, deliver, receive, next_of, count_entered,
  count_turned_away, count_delivered, count_dropped,
}
use marx_agent.Subagent.World.{pick}
use marx_agent.Subagent.World.Boxes.{Kept}

-- The property, where there is a message.
abbrev pub OfSome : (Message → Type 0) → Option Message → Type 0
OfSome P none = Unit
OfSome P (some m) = P m

pub pick-All :
    (P : Message → Type 0) (d : ℕ) (fs : List (ℕ × Message))
    → All (λ f. P f.1) fs
    → All (λ f. P f.1) (pick d fs).1 × OfSome P (pick d fs).0
unfolding pick
pick-All P d [] h = (tt, tt)
pick-All P d ((e, m) ∷ rest) h = elim (Bool-cases (d == e)) [
  | inl same ↦ simp same (h.1, h.0)
  | inr other ↦ let (left, found) = pick-All P d rest h.1 in simp other ((h.0, left), found)
]

module _ (encode : Message → Option String) where
  -- The journal has a record of the message as it was before it got its sequence number.
  abbrev pub Promised : List Record → Message → Type 0
  Promised journal m =
      (i : ℕ) × (r : Record) × (s : ℕ) × (get_elem? journal i ≡ some r)
      × (encode (record m { sequence = s }) ≡ some r.raw_data)

  abbrev pub Holds : List Record → Mailbox → Type 0
  Holds journal box = All (Promised journal) box.waiting

  pub Promised-append :
      (journal more : List Record) (m : Message) → Promised journal m → Promised (journal ++ more) m
  Promised-append journal more m (i, r, s, at, same) =
      (i, r, s, get_elem?-append journal more i r at, same)

  deliver-Holds :
      (journal : List Record) (m : Message) (box : Mailbox)
      → Promised journal m
      → Holds journal box
      → Holds journal (deliver m box).0
  unfolding deliver
  deliver-Holds journal m box q h = elim (Bool-cases box.closed) [
    | inl closed ↦ simp closed h
    | inr open_now ↦ elim (Bool-cases (ltb (length box.waiting) mailbox_capacity)) [
      | inl room ↦
          simp (open_now, room) (All-append (Promised journal) box.waiting (m ∷ []) h (q, tt))
      | inr full ↦ simp (open_now, full) h
    ]
  ]

  next_of-Holds :
      (journal : List Record) (ms : List Message) (box : Mailbox)
      → All (Promised journal) ms
      → Holds journal box
      → Holds journal (next_of ms box).0
  next_of-Holds journal [] box h k = k
  next_of-Holds journal (m ∷ ms) box h k = h.1

  count_entered-Holds :
      (journal : List Record) (n : ℕ) (box : Mailbox)
      → Holds journal box
      → Holds journal (count_entered n box)
  count_entered-Holds journal zero box h = h
  count_entered-Holds journal (suc n) box h = h

  count_turned_away-Holds :
      (journal : List Record) (n : ℕ) (box : Mailbox)
      → Holds journal box
      → Holds journal (count_turned_away n box)
  count_turned_away-Holds journal zero box h = h
  count_turned_away-Holds journal (suc n) box h = h

  pub Holds-Kept : (journal : List Record) → Kept (Holds journal) (Promised journal)
  unfolding new_mailbox receive count_delivered count_dropped
  Holds-Kept journal = record {
    fresh = λ agent. tt;
    taken = deliver-Holds journal;
    given = λ box h. next_of-Holds journal box.waiting box h h;
    counted = λ box h. count_entered-Holds journal box.entered box h;
    passed = λ box h. count_turned_away-Holds journal box.turned_away box h;
  }
