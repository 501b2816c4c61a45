-- ===== src/Subagent/World/Counters.antt =====
-- internal/engine/subagent: what each operation does to the counters and to the size of a mailbox.
use marx_agent.Prelude.{
  ℕ, zero, suc, ◌+◌, ◌≡◌, ◌≤◌, refl, ap, Bool, true, false, String, Option, none, some, List, [],
  ◌∷◌, ◌==◌, inl, inr, Bool-cases, length, length-append, arith, is_blank,
}
use marx_agent.Subagent.Mailbox.{
  Message, Mailbox, new_mailbox, deliver, receive, next_of, mailbox_capacity, count_entered,
  count_turned_away, count_delivered, count_dropped,
}
use marx_agent.Subagent.Broker.{Broker, register, find_mailbox, has_mailbox}
use marx_agent.Subagent.World.{count_if, pick, shut}
use marx_agent.Subagent.World.Boxes.{Kept}

-- A mailbox holds no more than its channel does, and no more than was put into it, counted or not.
abbrev pub IsSound : Mailbox → Type 0
IsSound box =
    (length box.waiting ≤ mailbox_capacity) × (length box.waiting ≤ box.delivered + box.entered)

abbrev pub Anything : Message → Type 0
Anything m = Unit

deliver-IsSound :
    (m : Message) (box : Mailbox) → Anything m → IsSound box → IsSound (deliver m box).0
unfolding deliver
deliver-IsSound m box q h = ground (arith, h, length-append box.waiting (m ∷ []))

next_of-IsSound :
    (ms : List Message) (box : Mailbox)
    → ms ≡ box.waiting
    → IsSound box
    → IsSound (next_of ms box).0
next_of-IsSound [] box e h = h
next_of-IsSound (m ∷ ms) box e h =
    let size : length (m ∷ ms) ≡ length box.waiting = ap length e in
    (omega (arith, size, h.0), omega (arith, size, h.1))

count_entered-IsSound :
    (n : ℕ) (box : Mailbox) → n ≡ box.entered → IsSound box → IsSound (count_entered n box)
count_entered-IsSound zero box e h = h
count_entered-IsSound (suc n) box e h = (h.0, omega (arith, h.1, e))

count_turned_away-IsSound :
    (n : ℕ) (box : Mailbox) → IsSound box → IsSound (count_turned_away n box)
count_turned_away-IsSound zero box h = h
count_turned_away-IsSound (suc n) box h = h

pub IsSound-Kept : Kept IsSound Anything
unfolding new_mailbox receive count_delivered count_dropped
IsSound-Kept = record {
  fresh = λ agent. (omega arith, omega arith);
  taken = deliver-IsSound;
  given = λ box h. next_of-IsSound box.waiting box refl h;
  counted = λ box h. count_entered-IsSound box.entered box refl h;
  passed = λ box h. count_turned_away-IsSound box.turned_away box h;
}

-- A mailbox was offered no more messages than were sent and are not on their way: those that it has
-- counted, taken or turned away, and those that it has yet to count.
abbrev pub Offered : ℕ → ℕ → Mailbox → Type 0
Offered sent flying box =
    box.delivered + box.entered + box.dropped + box.turned_away + flying ≤ sent

pub deliver-Offered :
    (sent flying : ℕ) (m : Message) (box : Mailbox)
    → Offered sent (suc flying) box
    → Offered sent flying (deliver m box).0
unfolding deliver
deliver-Offered sent flying m box h = ground (arith, h)

count_entered-Offered :
    (sent flying n : ℕ) (box : Mailbox)
    → n ≡ box.entered
    → Offered sent flying box
    → Offered sent flying (count_entered n box)
count_entered-Offered sent flying zero box e h = h
count_entered-Offered sent flying (suc n) box e h = omega (arith, h, e)

count_turned_away-Offered :
    (sent flying n : ℕ) (box : Mailbox)
    → n ≡ box.turned_away
    → Offered sent flying box
    → Offered sent flying (count_turned_away n box)
count_turned_away-Offered sent flying zero box e h = h
count_turned_away-Offered sent flying (suc n) box e h = omega (arith, h, e)

next_of-Offered :
    (sent flying : ℕ) (ms : List Message) (box : Mailbox)
    → Offered sent flying box
    → Offered sent flying (next_of ms box).0
next_of-Offered sent flying [] box h = h
next_of-Offered sent flying (m ∷ ms) box h = h

pub new_mailbox-Offered :
    (sent flying : ℕ) → flying ≤ sent → (agent : String) → Offered sent flying (new_mailbox agent)
unfolding new_mailbox
new_mailbox-Offered sent flying h agent = omega (arith, h)

pub receive-Offered :
    (sent flying : ℕ) (box : Mailbox)
    → Offered sent flying box
    → Offered sent flying (receive box).0
unfolding receive
receive-Offered sent flying box h = next_of-Offered sent flying box.waiting box h

pub count_delivered-Offered :
    (sent flying : ℕ) (box : Mailbox)
    → Offered sent flying box
    → Offered sent flying (count_delivered box)
unfolding count_delivered
count_delivered-Offered sent flying box h = count_entered-Offered sent flying box.entered box refl h

pub count_dropped-Offered :
    (sent flying : ℕ) (box : Mailbox)
    → Offered sent flying box
    → Offered sent flying (count_dropped box)
unfolding count_dropped
count_dropped-Offered sent flying box h =
    count_turned_away-Offered sent flying box.turned_away box refl h

pub register-counters :
    (agent : String) (b : Broker)
    → ((register agent b).0.sent ≡ b.sent)
      × ((register agent b).0.delivered ≡ b.delivered)
      × ((register agent b).0.orphaned ≡ b.orphaned)
unfolding register
register-counters agent b = elim (Bool-cases (is_blank agent)) [
  | inl blank ↦ simp blank (refl, refl, refl)
  | inr named ↦ elim (Bool-cases b.closed) [
    | inl closed ↦ simp (named, closed) (refl, refl, refl)
    | inr open_now ↦ elim (Bool-cases (has_mailbox (find_mailbox agent b.mailboxes))) [
      | inl there ↦ simp (named, open_now, there) (refl, refl, refl)
      | inr new ↦ simp (named, open_now, new) (refl, refl, refl)
    ]
  ]
]

pub shut-counters :
    (b : Broker)
    → ((shut b).sent ≡ b.sent)
      × ((shut b).delivered ≡ b.delivered)
      × ((shut b).orphaned ≡ b.orphaned)
unfolding shut
shut-counters b = elim (Bool-cases b.closed) [
  | inl closed ↦ simp closed (refl, refl, refl)
  | inr open_now ↦ simp open_now (refl, refl, refl)
]

-- As many as there are, less the one that is picked.
abbrev pub some_count : Option Message → ℕ
some_count none = 0
some_count (some m) = 1

pub pick-length :
    (d : ℕ) (fs : List (ℕ × Message)) → some_count (pick d fs).0 + length (pick d fs).1 ≡ length fs
unfolding pick
pick-length d [] = refl
pick-length d ((e, m) ∷ rest) = elim (Bool-cases (d == e)) [
  | inl same ↦ simp same (omega arith)
  | inr other ↦ simp other (omega (arith, pick-length d rest))
]

pub count_if-le : (took : Bool) (n : ℕ) → count_if took n ≤ suc n
count_if-le true n = omega arith
count_if-le false n = omega arith
