-- ===== src/Context/Plan/Turns.antt =====
-- internal/engine/context/manager.go, Plan: the turns that stay in the protected tail.
use marx_agent.Prelude.{
  ℕ, zero, suc, ◌+◌, ◌-◌, ◌≤◌, ◌<◌, ◌≡◌, refl, ap, ◌∙◌, true, false, some, List, [], ◌∷◌, length,
  drop, get_elem?, arith, inl, inr, Bool-cases, if◌then◌else◌,
}
use Prim.Native.Nat.{min}
use marx_agent.Core.Message.{Message}
use marx_agent.Context.Plan.{is_user, user_indexes, keep_from}

-- How many of the messages the user wrote.
abbrev pub users : List Message → ℕ
users [] = 0
users (m ∷ ms) = if is_user m.role then suc (users ms) else users ms

length-user_indexes : (i : ℕ) (ms : List Message) → length (user_indexes i ms) ≡ users ms
unfolding user_indexes
length-user_indexes i [] = refl
length-user_indexes i (m ∷ ms) = elim (Bool-cases (is_user m.role)) [
  | inl h ↦ simp (h, length-user_indexes (i + 1) ms) refl
  | inr h ↦ simp (h, length-user_indexes (i + 1) ms) refl
]

-- The entry with index `k` names the place of the user's message number `k`.
abbrev Starts : ℕ → ℕ → List Message → Type 0
Starts i k ms =
    (j : ℕ) × (get_elem? (user_indexes i ms) k ≡ some (i + j))
    × (j < length ms)
    × (users (drop j ms) ≡ users ms - k)

other-Starts :
    (i k : ℕ) (m : Message) (ms : List Message)
    → is_user m.role ≡ false
    → Starts (i + 1) k ms
    → Starts i k (m ∷ ms)
unfolding user_indexes
other-Starts i k m ms h (j, at, lt, same) =
    let place : i + 1 + j ≡ i + suc j = omega arith in
    (suc j, simp h (at ∙ ap some place), omega arith, simp h same)

user-Starts :
    (i k : ℕ) (m : Message) (ms : List Message)
    → is_user m.role ≡ true
    → Starts (i + 1) k ms
    → Starts i (suc k) (m ∷ ms)
unfolding user_indexes
user-Starts i k m ms h (j, at, lt, same) =
    let place : i + 1 + j ≡ i + suc j = omega arith in
    (suc j, simp h (at ∙ ap some place), omega arith, simp h (omega (arith, same)))

first-Starts :
    (i : ℕ) (m : Message) (ms : List Message) → is_user m.role ≡ true → Starts i 0 (m ∷ ms)
unfolding user_indexes
first-Starts i m ms h =
    let place : i ≡ i + 0 = omega arith in (0, simp h (ap some place), omega arith, omega arith)

user_indexes-Starts : (k i : ℕ) (ms : List Message) → k < users ms → Starts i k ms
user_indexes-Starts k i [] lt = absurd (omega arith)
user_indexes-Starts zero i (m ∷ ms) lt = elim (Bool-cases (is_user m.role)) [
  | inl h ↦ first-Starts i m ms h
  | inr h ↦ other-Starts i 0 m ms h (user_indexes-Starts 0 (i + 1) ms (ground (arith, h, lt)))
]
user_indexes-Starts (suc k) i (m ∷ ms) lt = elim (Bool-cases (is_user m.role)) [
  | inl h ↦ user-Starts i k m ms h (user_indexes-Starts k (i + 1) ms (ground (arith, h, lt)))
  | inr h ↦
      other-Starts i (suc k) m ms h (user_indexes-Starts (suc k) (i + 1) ms (ground (arith, h, lt)))
]

-- Where the protected tail of `turns` turns begins: one turn more is in it, or all of them are.
abbrev pub Protects : ℕ → List Message → Type 0
Protects turns ms =
    (users (drop (keep_from turns ms) ms) ≡ min (users ms) (suc turns))
    × (keep_from turns ms ≤ length ms - 1)

keep_from_at :
    (turns k j : ℕ) (ms : List Message)
    → users ms - turns ≡ suc k
    → get_elem? (user_indexes 0 ms) k ≡ some j
    → keep_from turns ms ≡ j
unfolding keep_from
keep_from_at turns k j ms q at =
    let place : suc (users ms) - 1 - turns ≡ suc k = omega (arith, q) in
    simp (length-user_indexes 0 ms, place, at) refl

keep_from_zero : (turns : ℕ) (ms : List Message) → users ms - turns ≡ 0 → keep_from turns ms ≡ 0
unfolding keep_from
keep_from_zero turns ms q =
    let place : suc (users ms) - 1 - turns ≡ 0 = omega (arith, q) in
    simp (length-user_indexes 0 ms, place) refl

tail-Protects : (turns k : ℕ) (ms : List Message) → users ms - turns ≡ k → Protects turns ms
tail-Protects turns zero ms q = rw (keep_from_zero turns ms q) (omega arith, omega arith)
tail-Protects turns (suc k) ms q =
    let (j, at, lt, same) = user_indexes-Starts k 0 ms (omega arith) in
    let here : keep_from turns ms ≡ j = keep_from_at turns k j ms q (at ∙ ap some (omega arith)) in
    rw here (same ∙ omega (arith, q), omega (arith, lt))

-- The protected tail of Plan holds one message of the user more than the number of turns to keep,
-- or all of them where there are no more, and it begins in front of the last message or at the
-- beginning.
pub keep_from-Protects : (turns : ℕ) (ms : List Message) → Protects turns ms
keep_from-Protects turns ms = tail-Protects turns (users ms - turns) ms refl
