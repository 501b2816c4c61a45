-- ===== src/Core/Hooks/Unregister.antt =====
-- internal/core/hooks.go: Unregister, alone and behind Register.
use marx_agent.Prelude.{
  ℕ, ◌+◌, ◌^◌, ◌≤◌, ◌<◌, ◌≡◌, refl, true, false, Option, none, some, List, [], ◌∷◌, ◌++◌, inl, inr,
  All, arith, Bool-cases, ◌==◌, ◌||◌,
}
use marx_agent.Prelude.Int.{ℤ}
use marx_agent.Core.Error.{HookType}
use marx_agent.Core.Session.{HookData, HookOutcome, HookEntry, Registry, hook_eq}
use marx_agent.Core.Hooks.{valid_hook_type, register, without, has_pointer, unregister}
use marx_agent.Core.Hooks.Order.{Before, IsSorted, upto, beyond, upto-append-beyond}
use marx_agent.Core.Hooks.Register.{InRange, IsOrdered, new_entry, register-place}

module _ {W : Type 0} where
  without-All {κ} :
      (P : HookEntry W → Type κ) (pointer : ℕ) (es : List (HookEntry W))
      → All P es
      → All P (without pointer es)
  unfolding without
  without-All P pointer [] h = tt
  without-All P pointer (e ∷ es) h = elim (Bool-cases (e.pointer == pointer)) [
    | inl b ↦ rw b (without-All P pointer es h.1)
    | inr b ↦ rw b (h.0, without-All P pointer es h.1)
  ]

  without-IsSorted :
      (pointer : ℕ) (es : List (HookEntry W)) → IsSorted es → IsSorted (without pointer es)
  unfolding without
  without-IsSorted pointer [] h = tt
  without-IsSorted pointer (e ∷ es) h = elim (Bool-cases (e.pointer == pointer)) [
    | inl b ↦ rw b (without-IsSorted pointer es h.1)
    | inr b ↦ rw b (without-All (Before e) pointer es h.0, without-IsSorted pointer es h.1)
  ]

  without-append :
      (pointer : ℕ) (xs ys : List (HookEntry W))
      → without pointer (xs ++ ys) ≡ without pointer xs ++ without pointer ys
  unfolding without
  without-append pointer [] ys = refl
  without-append pointer (x ∷ xs) ys = ground (arith, without-append pointer xs ys)

  without_absent :
      (pointer : ℕ) (es : List (HookEntry W))
      → has_pointer pointer es ≡ false
      → without pointer es ≡ es
  unfolding without has_pointer
  without_absent pointer [] h = refl
  without_absent pointer (e ∷ es) h = ground (arith, without_absent pointer es)

  has_pointer-append :
      (pointer : ℕ) (xs ys : List (HookEntry W))
      → has_pointer pointer (xs ++ ys) ≡ (has_pointer pointer xs || has_pointer pointer ys)
  unfolding has_pointer
  has_pointer-append pointer [] ys = refl
  has_pointer-append pointer (x ∷ xs) ys = ground (arith, has_pointer-append pointer xs ys)

  -- Whatever Unregister is asked, a registry in order stays in order.
  pub unregister-IsOrdered :
      (t : HookType) (hook : Option ℕ) (r : Registry W)
      → IsOrdered r
      → IsOrdered (unregister t hook r).0
  unfolding unregister
  unregister-IsOrdered t none r o = elim (Bool-cases (valid_hook_type t)) [
    | inl v ↦ rw v o
    | inr v ↦ rw v o
  ]
  unregister-IsOrdered t (some pointer) r o = elim (Bool-cases (valid_hook_type t)) [
    | inr v ↦ rw v o
    | inl v ↦ elim (Bool-cases (has_pointer pointer (r.entries t))) [
      | inr h ↦ rw (v, h) o
      | inl h ↦
          rw (v, h)
            (record {
              sorted = λ u. elim (Bool-cases (hook_eq t u)) [
                | inl e ↦ rw e (without-IsSorted pointer (r.entries t) (o.sorted t))
                | inr e ↦ rw e (o.sorted u)
              ];
              numbered = λ u. elim (Bool-cases (hook_eq t u)) [
                | inl e ↦ rw e (
                    without-All (λ x. x.sequence ≤ r.next_sequence) pointer (r.entries t)
                      (o.numbered t))
                | inr e ↦ rw e (o.numbered u)
              ];
              bounded = λ u. elim (Bool-cases (hook_eq t u)) [
                | inl e ↦
                    rw e (without-All (λ x. InRange x.priority) pointer (r.entries t) (o.bounded t))
                | inr e ↦ rw e (o.bounded u)
              ];
            })
    ]
  ]

  without-middle :
      (pointer : ℕ) (xs : List (HookEntry W)) (e : HookEntry W) (ys : List (HookEntry W))
      → e.pointer ≡ pointer
      → has_pointer pointer (xs ++ ys) ≡ false
      → (without pointer (xs ++ e ∷ ys) ≡ xs ++ ys) × (has_pointer pointer (xs ++ e ∷ ys) ≡ true)
  unfolding without has_pointer
  without-middle pointer [] e ys p h = ground (arith, without_absent pointer ys)
  without-middle pointer (x ∷ xs) e ys p h = ground (arith, without-middle pointer xs e ys p)

  -- In a registry in order whose sequence number does not wrap around, where the type is known,
  -- the priority is in range and the type has no hook with the same pointer, unregistering a hook
  -- right after its registration is accepted and gives every type its hooks back.
  pub unregister-register :
      (t : HookType) (p : ℤ) (pointer : ℕ) (call : HookData → W → W × HookOutcome) (time : ℕ)
      (r : Registry W)
      → IsOrdered r
      → valid_hook_type t ≡ true
      → InRange p
      → r.next_sequence + 1 < 2 ^ 64
      → has_pointer pointer (r.entries t) ≡ false
      → let u = unregister t (some pointer) (register t p (some (pointer, call)) time r).0 in
        (u.1 ≡ none)
        × ((k : HookType) → hook_eq t k ≡ true → u.0.entries k ≡ r.entries t)
        × ((k : HookType) → hook_eq t k ≡ false → u.0.entries k ≡ r.entries k)
  unfolding unregister
  unregister-register t p pointer call time r o v b n fresh =
      let (accepted, placed, others) = register-place t p pointer call time r o v b n in
      let whole = upto-append-beyond p (r.entries t) (o.sorted t) in
      let (removed, found) =
        without-middle pointer (upto p (r.entries t)) (new_entry t p pointer call time r)
          (beyond p (r.entries t)) refl (rw whole fresh) in
      rw (v, placed, found) (refl, λ k e. rw (e, removed) whole, λ k e. rw e (others k e))
