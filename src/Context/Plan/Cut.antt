-- ===== src/Context/Plan/Cut.antt =====
-- internal/engine/context/manager.go, Plan: the walk backwards from the protected tail.
use marx_agent.Prelude.{
  ℕ, zero, suc, ◌+◌, ◌-◌, ◌/◌, ◌≤◌, ◌<◌, ◌≡◌, refl, ap, ◌∙◌, Bool, true, false, List, [], ◌∷◌,
  length, drop, arith, inl, inr, Bool-cases, ltb, get_elem?, some, ◌⊎◌,
}
use native.Mathlib.Numerals.{unary_clauses}
use marx_agent.Core.Message.{Message}
use marx_agent.Context.Strategy.{Estimator}
use marx_agent.Context.Plan.{
  walk_back, plan, keep_from, budget_tokens, Config, key_indexes, is_key_result,
}
use marx_agent.Context.Plan.Turns.{keep_from-Protects}

module _ (e : Estimator) (room : ℕ) (ms : List Message) where
  walk_back-le : (n : ℕ) → walk_back e room ms n ≤ n
  unfolding walk_back
  walk_back-le zero = omega arith
  walk_back-le (suc n) = grind (arith, walk_back-le n)

  -- The walk went over this place, so what begins there left room.
  walk_back_roomy :
      (n j : ℕ) → walk_back e room ms n ≤ j → j < n → ltb (e.of_messages (drop j ms)) room ≡ true
  unfolding walk_back
  walk_back_roomy zero j h k = absurd (omega arith)
  walk_back_roomy (suc n) j h k = elim (Bool-cases (ltb (e.of_messages (drop n ms)) room)) [
    | inl more ↦ grind (arith, walk_back_roomy n j, more)
    | inr no_more ↦ absurd (ground (arith, no_more, h, k))
  ]

  walk_back_stops :
      (n : ℕ)
      → (walk_back e room ms n ≡ 0)
        ⊎ (ltb (e.of_messages (drop (walk_back e room ms n - 1) ms)) room ≡ false)
  unfolding walk_back
  walk_back_stops zero = inl refl
  walk_back_stops (suc n) = elim (Bool-cases (ltb (e.of_messages (drop n ms)) room)) [
    | inl more ↦ simp more (walk_back_stops n)
    | inr no_more ↦ simp no_more (inr (at_last no_more))
  ]
    where
      at_last :
          ltb (e.of_messages (drop n ms)) room ≡ false
          → ltb (e.of_messages (drop (suc n - 1) ms)) room ≡ false
      at_last h = simp unary_clauses h

-- The room that Plan leaves for what is kept verbatim.
abbrev pub room_of : Config → ℕ
room_of c = budget_tokens c - budget_tokens c / 4

-- Whether what begins at this place leaves room under the budget.
abbrev pub leaves_room : Config → List Message → ℕ → Bool
leaves_room c ms j = ltb (c.estimator.of_messages (drop j ms)) (room_of c)

-- The cut of Manager.Plan is never behind the beginning of the protected tail, which lies in
-- front of the last message or at the beginning.
pub plan-bounds :
    (c : Config) (ms : List Message)
    → ((plan c ms).cut ≤ (plan c ms).keep_from) × ((plan c ms).keep_from ≤ length ms - 1)
unfolding plan
plan-bounds c ms = (
  walk_back-le c.estimator (room_of c) ms (keep_from c.keep_recent_turns ms),
  (keep_from-Protects c.keep_recent_turns ms).1,
)

-- From each place between the cut and the protected tail on, the conversation costs less than the
-- budget less the target of the summary.
pub plan_roomy :
    (c : Config) (ms : List Message) (j : ℕ)
    → (plan c ms).cut ≤ j
    → j < (plan c ms).keep_from
    → leaves_room c ms j ≡ true
unfolding plan
plan_roomy c ms j h k =
    walk_back_roomy c.estimator (room_of c) ms (keep_from c.keep_recent_turns ms) j h k

-- As much is kept as there is room for: Manager.Plan cuts nothing, or with one message more the
-- conversation would not cost less than the budget less the target of the summary.
pub plan_stops :
    (c : Config) (ms : List Message)
    → ((plan c ms).cut ≡ 0) ⊎ (leaves_room c ms ((plan c ms).cut - 1) ≡ false)
unfolding plan
plan_stops c ms = walk_back_stops c.estimator (room_of c) ms (keep_from c.keep_recent_turns ms)

-- The index is one of those in the list.
abbrev pub Among : ℕ → List ℕ → Type 0
Among i is = (n : ℕ) × (get_elem? is n ≡ some i)

Among-cons : (i j : ℕ) (is : List ℕ) → Among i is → Among i (j ∷ is)
Among-cons i j is (n, at) = (suc n, at)

key_indexes_more :
    (cut i k : ℕ) (m : Message) (ms : List Message)
    → Among k (key_indexes (i + 1) cut ms)
    → Among k (key_indexes i (suc cut) (m ∷ ms))
unfolding key_indexes
key_indexes_more cut i k m ms among = elim (Bool-cases (is_key_result m)) [
  | inl key ↦ simp key (Among-cons k i (key_indexes (i + 1) cut ms) among)
  | inr other ↦ simp other among
]

-- Each key result in front of the cut has its index among those of the plan.
pub key_indexes-Among :
    (cut i k : ℕ) (ms : List Message) (m : Message)
    → k < cut
    → get_elem? ms k ≡ some m
    → is_key_result m ≡ true
    → Among (i + k) (key_indexes i cut ms)
unfolding key_indexes
key_indexes-Among zero i k ms m h at key = absurd (omega arith)
key_indexes-Among (suc cut) i k [] m h at key = ground (arith, at)
key_indexes-Among (suc cut) i zero (x ∷ ms) m h at key =
    let here : x ≡ m = cc in
    let same : is_key_result x ≡ true = ap is_key_result here ∙ key in
    let place : i ≡ i + 0 = omega arith in simp same (0, ap some place)
key_indexes-Among (suc cut) i (suc k) (x ∷ ms) m h at key =
    let (n, there) = key_indexes-Among cut (i + 1) k ms m (omega arith) at key in
    let place : i + 1 + k ≡ i + suc k = omega arith in
    key_indexes_more cut i (i + suc k) x ms (n, there ∙ ap some place)
