-- ===== src/Core/Bus/Lookup.antt =====
-- internal/core/event.go: a subscription among the others, found by its ID.
use marx_agent.Prelude.{
  ℕ, ◌+◌, ◌<◌, ◌≡◌, ◌≢◌, refl, ◌∙◌, Bool, true, false, ◌||◌, Option, none, some, List, [], ◌∷◌,
  ◌++◌, ◌==◌, map, inl, inr, arith, All, if◌then◌else◌, Bool-cases,
}
use marx_agent.Core.Bus.{Subscription, at_id, without}

abbrev pub lookup : ℕ → List Subscription → Option Subscription
lookup i [] = none
lookup i (s ∷ ss) = if s.id == i then some s else lookup i ss

abbrev pub among : ℕ → List ℕ → Bool
among i [] = false
among i (j ∷ js) = j == i || among i js

abbrev pub Unique : List ℕ → Type 0
Unique [] = Unit
Unique (j ∷ js) = (among j js ≡ false) × Unique js

abbrev pub Below : ℕ → List Subscription → Type 0
Below n = All (λ s. s.id < n)

abbrev pub ids_of : List Subscription → List ℕ
ids_of ss = map (λ s. s.id) ss

pub lookup-id :
    (i : ℕ) (ss : List Subscription) (s : Subscription) → lookup i ss ≡ some s → s.id ≡ i
lookup-id i [] s h = ground (arith)
lookup-id i (x ∷ ss) s h = ground (arith, lookup-id i ss s)

pub lookup-among :
    (i : ℕ) (ss : List Subscription) (s : Subscription)
    → lookup i ss ≡ some s
    → among i (ids_of ss) ≡ true
lookup-among i [] s h = ground (arith)
lookup-among i (x ∷ ss) s h = ground (arith, lookup-among i ss s)

pub lookup-append :
    (i : ℕ) (ss ts : List Subscription) (s : Subscription)
    → lookup i ss ≡ some s
    → lookup i (ss ++ ts) ≡ some s
lookup-append i [] ts s h = ground (arith)
lookup-append i (x ∷ ss) ts s h = ground (arith, lookup-append i ss ts s)

pub lookup-without :
    (i k : ℕ) (ss : List Subscription) → i ≢ k → lookup i (without k ss) ≡ lookup i ss
unfolding without
lookup-without i k [] h = refl
lookup-without i k (x ∷ ss) h = ground (arith, lookup-without i k ss h)

module _ (f : Subscription → Subscription) (keeps : (s : Subscription) → (f s).id ≡ s.id) where
  pub lookup-at_id :
      (i : ℕ) (ss : List Subscription) (s : Subscription)
      → lookup i ss ≡ some s
      → lookup i (at_id i f ss) ≡ some (f s)
  unfolding at_id
  lookup-at_id i [] s h = ground (arith)
  lookup-at_id i (x ∷ ss) s h = ground (arith, lookup-at_id i ss s, keeps x)

  pub lookup-at_id_other :
      (i k : ℕ) (ss : List Subscription) → i ≢ k → lookup i (at_id k f ss) ≡ lookup i ss
  unfolding at_id
  lookup-at_id_other i k [] h = refl
  lookup-at_id_other i k (x ∷ ss) h = ground (arith, lookup-at_id_other i k ss h, keeps x)

  pub ids_of-at_id : (k : ℕ) (ss : List Subscription) → ids_of (at_id k f ss) ≡ ids_of ss
  unfolding at_id
  ids_of-at_id k [] = refl
  ids_of-at_id k (x ∷ ss) = ground (arith, ids_of-at_id k ss, keeps x)

  pub Below-at_id : (n k : ℕ) (ss : List Subscription) → Below n ss → Below n (at_id k f ss)
  unfolding at_id
  Below-at_id n k [] h = tt
  Below-at_id n k (x ∷ ss) h = elim (Bool-cases (x.id == k)) [
    | inl e ↦ rw e (ground (arith, keeps x), Below-at_id n k ss h.1)
    | inr e ↦ rw e (h.0, Below-at_id n k ss h.1)
  ]

pub Below-append :
    (n : ℕ) (ss : List Subscription) (t : Subscription)
    → Below n ss
    → t.id ≡ n
    → Below (n + 1) (ss ++ t ∷ [])
Below-append n [] t h e = (omega (arith, e), tt)
Below-append n (x ∷ ss) t h e = (omega arith, Below-append n ss t h.1 e)

pub Below-without : (n k : ℕ) (ss : List Subscription) → Below n ss → Below n (without k ss)
unfolding without
Below-without n k [] h = tt
Below-without n k (x ∷ ss) h = elim (Bool-cases (x.id == k)) [
  | inl e ↦ rw e (Below-without n k ss h.1)
  | inr e ↦ rw e (h.0, Below-without n k ss h.1)
]

among-new :
    (n i : ℕ) (ss : List Subscription) (t : Subscription)
    → t.id ≡ n
    → i < n
    → among i (ids_of (ss ++ t ∷ [])) ≡ among i (ids_of ss)
among-new n i [] t e h = ground (arith)
among-new n i (x ∷ ss) t e h = ground (arith, among-new n i ss t e h)

pub Unique-append :
    (n : ℕ) (ss : List Subscription) (t : Subscription)
    → Below n ss
    → t.id ≡ n
    → Unique (ids_of ss)
    → Unique (ids_of (ss ++ t ∷ []))
Unique-append n [] t b e u = (refl, tt)
Unique-append n (x ∷ ss) t b e u =
    (among-new n x.id ss t e b.0 ∙ u.0, Unique-append n ss t b.1 e u.1)

among-without :
    (i k : ℕ) (ss : List Subscription)
    → among i (ids_of ss) ≡ false
    → among i (ids_of (without k ss)) ≡ false
unfolding without
among-without i k [] h = refl
among-without i k (x ∷ ss) h = ground (arith, among-without i k ss)

pub Unique-without :
    (k : ℕ) (ss : List Subscription) → Unique (ids_of ss) → Unique (ids_of (without k ss))
unfolding without
Unique-without k [] u = tt
Unique-without k (x ∷ ss) u = elim (Bool-cases (x.id == k)) [
  | inl e ↦ rw e (Unique-without k ss u.1)
  | inr e ↦ rw e (among-without x.id k ss u.0, Unique-without k ss u.1)
]
