-- ===== src/Context/Plan/Admitted.antt =====
-- internal/engine/context/manager.go, Admit: what is admitted.
use marx_agent.Prelude.{
  ℕ, ◌+◌, ◌≡◌, refl, ap, Bool, true, false, Option, none, some, List, [], ◌∷◌, arith, inl, inr,
  Bool-cases, ltb, leb, if◌then◌else◌, ◌==◌, ◌||◌,
}
use marx_agent.Core.Message.{Message}
use marx_agent.Context.Plan.{admit_from, admit, Config}

abbrev cost_of : Config → Message → ℕ
cost_of c m = c.estimator.of_messages (m ∷ [])

-- Within the cap on one message, where there is one.
abbrev pub within_cap : Config → Message → Bool
within_cap c m = (c.max_message_tokens == 0) || leb (cost_of c m) c.max_message_tokens

-- The longest prefix of messages that pass, and the first that does not.
abbrev pub passing : (Message → Bool) → List Message → List Message
passing p [] = []
passing p (m ∷ ms) = let rest = passing p ms in if p m then m ∷ rest else []

abbrev pub first_failing : (Message → Bool) → ℕ → List Message → Option (ℕ × Message)
first_failing p i [] = none
first_failing p i (m ∷ ms) =
    let rest = first_failing p (i + 1) ms in if p m then rest else some (i, m)

abbrev pub with_cost : Config → Option (ℕ × Message) → Option (ℕ × ℕ)
with_cost c none = none
with_cost c (some (i, m)) = some (i, cost_of c m)

abbrev pub reference : Config → ℕ → List Message → List Message × Option (ℕ × ℕ)
reference c i ms = (passing (within_cap c) ms, with_cost c (first_failing (within_cap c) i ms))

admit_from-reference :
    (c : Config) (i : ℕ) (ms : List Message)
    → (c.max_message_tokens == 0) ≡ false
    → admit_from c i ms ≡ reference c i ms
unfolding admit_from
admit_from-reference c i [] h = refl
admit_from-reference c i (m ∷ ms) h =
    let rest = admit_from-reference c (i + 1) ms h in
    elim (Bool-cases (ltb c.max_message_tokens (cost_of c m))) [
      | inl over ↦
          let cap : leb (cost_of c m) c.max_message_tokens ≡ false = ground (arith, over) in
          simp (over, h, cap) refl
      | inr fits ↦
          let cap : leb (cost_of c m) c.max_message_tokens ≡ true = ground (arith, fits) in
          simp (fits, rest, h, cap) refl
    ]

reference_no_cap :
    (c : Config) (ms : List Message) (i : ℕ)
    → (c.max_message_tokens == 0) ≡ true
    → (passing (within_cap c) ms ≡ ms) × (first_failing (within_cap c) i ms ≡ none)
reference_no_cap c [] i h = (refl, refl)
reference_no_cap c (m ∷ ms) i h =
    let (all, no_other) = reference_no_cap c ms (i + 1) h in simp h (ap (◌∷◌ m) all, no_other)

-- What Admit lets through is the longest prefix of messages that are each within the cap on one
-- message, and it refuses the first one that is not, with its index and its cost; a cap of 0
-- stops none.
pub admit-reference : (c : Config) (ms : List Message) → admit c ms ≡ reference c 0 ms
unfolding admit
admit-reference c ms = elim (Bool-cases (c.max_message_tokens == 0)) [
  | inl no_cap ↦
      let (all, no_other) = reference_no_cap c ms 0 no_cap in simp (no_cap, all, no_other) refl
  | inr cap ↦ simp cap (admit_from-reference c 0 ms cap)
]
