-- ===== src/Core/Hooks/Order.antt =====
-- internal/core/hooks.go: the order in which the hooks of a type run.
use marx_agent.Prelude.{
  ◌<◌, ◌≡◌, refl, ap, ◌∙◌, true, false, List, [], ◌∷◌, ◌++◌, inl, inr, All, All-middle, arith,
  if◌then◌else◌, Bool-cases, append_assoc, append-nil,
}
use marx_agent.Prelude.Int.{ℤ, ltb_ℤ}
use marx_agent.Core.Session.{HookEntry}
use marx_agent.Core.Hooks.{entry_lt, insert_entry, sort_from}

module _ {W : Type 0} where
  abbrev pub Before : HookEntry W → HookEntry W → Type 0
  Before a b = entry_lt a b ≡ true

  abbrev pub IsSorted : List (HookEntry W) → Type 0
  IsSorted [] = Unit
  IsSorted (e ∷ es) = All (Before e) es × IsSorted es

  not-Before : (a b : HookEntry W) → Before a b → entry_lt b a ≡ false
  not-Before a b h = ground arith

  insert_last :
      (e : HookEntry W) (es : List (HookEntry W))
      → All (λ x. Before x e) es
      → insert_entry e es ≡ es ++ e ∷ []
  unfolding insert_entry
  insert_last e [] h = refl
  insert_last e (x ∷ es) h = rw (not-Before x e h.0, insert_last e es h.1)

  IsSorted-Before :
      (acc : List (HookEntry W)) (x : HookEntry W) (xs : List (HookEntry W))
      → IsSorted (acc ++ x ∷ xs)
      → All (λ y. Before y x) acc
  IsSorted-Before [] x xs h = tt
  IsSorted-Before (a ∷ acc) x xs h =
      (All-middle (Before a) acc x xs h.0, IsSorted-Before acc x xs h.1)

  -- Sorting a sorted list with one entry more puts that entry in its place.
  sort_from-insert_entry :
      (acc xs : List (HookEntry W)) (e : HookEntry W)
      → IsSorted (acc ++ xs)
      → sort_from acc (xs ++ e ∷ []) ≡ insert_entry e (acc ++ xs)
  unfolding sort_from
  sort_from-insert_entry acc [] e h = rw append-nil
  sort_from-insert_entry acc (x ∷ xs) e h =
      let moved = append_assoc acc (x ∷ []) xs in
      ap (λ l. sort_from l (xs ++ e ∷ [])) (insert_last x acc (IsSorted-Before acc x xs h))
      ∙ sort_from-insert_entry (acc ++ x ∷ []) xs e (rw moved h)
      ∙ ap (insert_entry e) moved

  -- The entries that run before a new one of priority `p`, and those that run behind it.
  abbrev pub upto : ℤ → List (HookEntry W) → List (HookEntry W)
  upto p [] = []
  upto p (e ∷ es) = if ltb_ℤ p e.priority then upto p es else e ∷ upto p es

  abbrev pub beyond : ℤ → List (HookEntry W) → List (HookEntry W)
  beyond p [] = []
  beyond p (e ∷ es) = if ltb_ℤ p e.priority then e ∷ beyond p es else beyond p es

  abbrev IsBeyond : ℤ → HookEntry W → Type 0
  IsBeyond p e = ltb_ℤ p e.priority ≡ true

  All-beyond :
      (p : ℤ) (es : List (HookEntry W))
      → All (IsBeyond p) es
      → (upto p es ≡ []) × (beyond p es ≡ es)
  All-beyond p [] h = (refl, refl)
  All-beyond p (e ∷ es) h = ground (arith, All-beyond p es h.1)

  later-IsBeyond :
      (p : ℤ) (x : HookEntry W) (es : List (HookEntry W))
      → IsBeyond p x
      → All (Before x) es
      → All (IsBeyond p) es
  later-IsBeyond p x [] b h = tt
  later-IsBeyond p x (e ∷ es) b h = (ground (arith, h.0), later-IsBeyond p x es b h.1)

  insert_entry-place :
      (e : HookEntry W) (es : List (HookEntry W))
      → IsSorted es
      → All (λ x. x.sequence < e.sequence) es
      → insert_entry e es ≡ upto e.priority es ++ e ∷ beyond e.priority es
  unfolding insert_entry
  insert_entry-place e [] s h = refl
  insert_entry-place e (x ∷ es) s h = elim (Bool-cases (ltb_ℤ e.priority x.priority)) [
    | inl b ↦
        let rest = All-beyond e.priority es (later-IsBeyond e.priority x es b s.0) in
        ground (arith, rest.0, rest.1)
    | inr b ↦ ground (arith, insert_entry-place e es s.1 h.1)
  ]

  insert_entry-All {κ} :
      (P : HookEntry W → Type κ) (e : HookEntry W) (es : List (HookEntry W))
      → P e
      → All P es
      → All P (insert_entry e es)
  unfolding insert_entry
  insert_entry-All P e [] p h = (p, tt)
  insert_entry-All P e (x ∷ es) p h = elim (Bool-cases (entry_lt e x)) [
    | inl b ↦ rw b (p, h)
    | inr b ↦ rw b (h.0, insert_entry-All P e es p h.1)
  ]

  Before-trans : (a b c : HookEntry W) → Before a b → Before b c → Before a c
  Before-trans a b c h k = ground arith

  All-Before :
      (a b : HookEntry W) (es : List (HookEntry W))
      → Before a b
      → All (Before b) es
      → All (Before a) es
  All-Before a b [] h k = tt
  All-Before a b (e ∷ es) h k = (Before-trans a b e h k.0, All-Before a b es h k.1)

  Before-of_not : (e x : HookEntry W) → x.sequence < e.sequence → entry_lt e x ≡ false → Before x e
  Before-of_not e x l h = ground arith

  insert_entry-IsSorted :
      (e : HookEntry W) (es : List (HookEntry W))
      → IsSorted es
      → All (λ x. x.sequence < e.sequence) es
      → IsSorted (insert_entry e es)
  unfolding insert_entry
  insert_entry-IsSorted e [] s h = (tt, tt)
  insert_entry-IsSorted e (x ∷ es) s h = elim (Bool-cases (entry_lt e x)) [
    | inl b ↦ rw b ((b, All-Before e x es b s.0), s)
    | inr b ↦ rw b (
      insert_entry-All (Before x) e es (Before-of_not e x h.0 b) s.0,
      insert_entry-IsSorted e es s.1 h.1,
    )
  ]

  -- Registration over sorted entries, whose sequences are below the new one.
  pub sort_from-place :
      (e : HookEntry W) (es : List (HookEntry W))
      → IsSorted es
      → All (λ x. x.sequence < e.sequence) es
      → (sort_from [] (es ++ e ∷ []) ≡ upto e.priority es ++ e ∷ beyond e.priority es)
        × IsSorted (sort_from [] (es ++ e ∷ []))
  sort_from-place e es s h =
      let sorted = sort_from-insert_entry [] es e s in
      (sorted ∙ insert_entry-place e es s h, rw sorted (insert_entry-IsSorted e es s h))

  pub sort_from-All {κ} :
      (P : HookEntry W → Type κ) (e : HookEntry W) (es : List (HookEntry W))
      → IsSorted es
      → P e
      → All P es
      → All P (sort_from [] (es ++ e ∷ []))
  sort_from-All P e es s p h = rw (sort_from-insert_entry [] es e s) (insert_entry-All P e es p h)

  -- Sorted entries fall into those up to a priority and those beyond it.
  pub upto-append-beyond :
      (p : ℤ) (es : List (HookEntry W)) → IsSorted es → upto p es ++ beyond p es ≡ es
  upto-append-beyond p [] s = refl
  upto-append-beyond p (e ∷ es) s = elim (Bool-cases (ltb_ℤ p e.priority)) [
    | inl b ↦
        let rest = All-beyond p es (later-IsBeyond p e es b s.0) in ground (arith, rest.0, rest.1)
    | inr b ↦ ground (arith, upto-append-beyond p es s.1)
  ]
