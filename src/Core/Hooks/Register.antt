-- ===== src/Core/Hooks/Register.antt =====
-- internal/core/hooks.go: what Register and Unregister make of the registry.
use native.Mathlib.Nat.{mod-eq_of_lt}
use marx_agent.Prelude.{
  ℕ, ◌+◌, ◌^◌, ◌≤◌, ◌<◌, ◌≡◌, refl, Bool, true, false, Option, none, some, List, [], ◌∷◌, ◌++◌, inl,
  inr, All, arith, Bool-cases, str_eq_refl, not, ◌&&◌, ◌||◌,
}
use marx_agent.Prelude.Int.{ℤ, ltb_ℤ, ◌≤ℤ◌}
use marx_agent.Core.Error.{HookType, on_event, other_hook}
use marx_agent.Core.Session.{HookData, HookOutcome, HookEntry, Registry, hook_eq}
use marx_agent.Core.Hooks.{
  minimum_hook_priority, maximum_hook_priority, valid_hook_type, sort_from, put_entries, register,
}
use marx_agent.Core.Hooks.Order.{IsSorted, upto, beyond, sort_from-place, sort_from-All}

pub hook_eq_refl : (t : HookType) → hook_eq t t ≡ true
hook_eq_refl (other_hook s) = str_eq_refl s
hook_eq_refl _ = refl

abbrev pub InRange : ℤ → Type 0
InRange p = (minimum_hook_priority ≤ℤ p) × (p ≤ℤ maximum_hook_priority)

abbrev in_range : ℤ → Bool
in_range p = not (ltb_ℤ p minimum_hook_priority || ltb_ℤ maximum_hook_priority p)

in_range→InRange : (p : ℤ) → in_range p ≡ true → InRange p
in_range→InRange p h = ground arith

and_left : (a b : Bool) → (a && b) ≡ true → a ≡ true
and_left a b h = ground arith

and_right : (a b : Bool) → (a && b) ≡ true → b ≡ true
and_right a b h = ground arith

not-false : {b : Bool} → not b ≡ false → b ≡ true
not-false h = ground arith

low : (p : ℤ) → InRange p → ltb_ℤ p minimum_hook_priority ≡ false
low p b = ground arith

high : (p : ℤ) → InRange p → ltb_ℤ maximum_hook_priority p ≡ false
high p b = ground arith

module _ {W : Type 0} where
  -- Every list of the registry is in running order, was numbered by the counter, and is within the
  -- bounds of a priority.
  pub record IsOrdered (r : Registry W) : Type 0 where
    pub sorted : (t : HookType) → IsSorted (r.entries t)
    pub numbered : (t : HookType) → All (λ e. e.sequence ≤ r.next_sequence) (r.entries t)
    pub bounded : (t : HookType) → All (λ e. InRange e.priority) (r.entries t)

  weaken :
      (n m : ℕ) (es : List (HookEntry W))
      → n ≤ m
      → All (λ e. e.sequence ≤ n) es
      → All (λ e. e.sequence ≤ m) es
  weaken n m [] l h = tt
  weaken n m (e ∷ es) l h = (omega arith, weaken n m es l h.1)

  pub strict :
      (n : ℕ) (es : List (HookEntry W))
      → All (λ e. e.sequence ≤ n) es
      → All (λ e. e.sequence < n + 1) es
  strict n [] h = tt
  strict n (e ∷ es) h = (omega arith, strict n es h.1)

  -- The entry that Register makes.
  abbrev pub new_entry :
      HookType → ℤ → ℕ → (HookData → W → W × HookOutcome) → ℕ → Registry W → HookEntry W
  new_entry t priority pointer call time r = record {
    pointer = pointer;
    call = call;
    priority = priority;
    sequence = r.next_sequence + 1;
    registered_at = time;
    observes = hook_eq t on_event;
  }

  module _ (t : HookType) (p : ℤ) (pointer : ℕ) (call : HookData → W → W × HookOutcome) (time : ℕ)
      (r : Registry W) where
    pub register-eq :
        valid_hook_type t ≡ true
        → InRange p
        → r.next_sequence + 1 < 2 ^ 64
        → register t p (some (pointer, call)) time r ≡ (
          record r {
            next_sequence = r.next_sequence + 1;
            entries =
                put_entries r.entries t
                  (sort_from [] (r.entries t ++ new_entry t p pointer call time r ∷ []));
          },
          none,
        )
    unfolding register
    register-eq v b n = rw (v, low p b, high p b, mod-eq_of_lt n)

    -- A registration of a known type with a priority in range is accepted by a registry in order
    -- whose sequence number does not wrap around, and stands behind the hooks of its type with a
    -- priority up to its own, before the others, and changes no other type.
    pub register-place :
        IsOrdered r
        → valid_hook_type t ≡ true
        → InRange p
        → r.next_sequence + 1 < 2 ^ 64
        → ((register t p (some (pointer, call)) time r).1 ≡ none)
          × ((register t p (some (pointer, call)) time r).0.entries t
              ≡ upto p (r.entries t) ++ new_entry t p pointer call time r ∷ beyond p (r.entries t))
          × ((u : HookType)
              → hook_eq t u ≡ false
              → (register t p (some (pointer, call)) time r).0.entries u ≡ r.entries u)
    register-place o v b n = rw (register-eq v b n) (
      refl,
      rw (hook_eq_refl t)
          (sort_from-place (new_entry t p pointer call time r) (r.entries t) (o.sorted t)
            (strict r.next_sequence (r.entries t) (o.numbered t))).0,
      λ u e. rw e,
    )

    register-IsOrdered_valid :
        IsOrdered r
        → valid_hook_type t ≡ true
        → InRange p
        → r.next_sequence + 1 < 2 ^ 64
        → IsOrdered (register t p (some (pointer, call)) time r).0
    register-IsOrdered_valid o v b n = rw (register-eq v b n) (record {
      sorted = λ u. elim (Bool-cases (hook_eq t u)) [
        | inl e ↦
            rw e
              (sort_from-place entry (r.entries t) (o.sorted t)
                (strict r.next_sequence (r.entries t) (o.numbered t))).1
        | inr e ↦ rw e (o.sorted u)
      ];
      numbered = λ u. elim (Bool-cases (hook_eq t u)) [
        | inl e ↦ rw e (
            sort_from-All (λ x. x.sequence ≤ r.next_sequence + 1) entry (r.entries t) (o.sorted t)
              (omega arith)
              (weaken r.next_sequence (r.next_sequence + 1) (r.entries t) (omega arith)
                (o.numbered t)))
        | inr e ↦ rw e (
            weaken r.next_sequence (r.next_sequence + 1) (r.entries u) (omega arith) (o.numbered u))
      ];
      bounded = λ u. elim (Bool-cases (hook_eq t u)) [
        | inl e ↦ rw e (
            sort_from-All (λ x. InRange x.priority) entry (r.entries t) (o.sorted t) b
              (o.bounded t))
        | inr e ↦ rw e (o.bounded u)
      ];
    })
      where
        entry : HookEntry W
        entry = new_entry t p pointer call time r

  register_nil :
      (t : HookType) (p : ℤ) (time : ℕ) (r : Registry W) → (register t p none time r).0 ≡ r
  unfolding register
  register_nil t p time r = ground arith

  register_refused :
      (t : HookType) (p : ℤ) (pointer : ℕ) (call : HookData → W → W × HookOutcome) (time : ℕ)
      (r : Registry W)
      → (valid_hook_type t && in_range p) ≡ false
      → (register t p (some (pointer, call)) time r).0 ≡ r
  unfolding register
  register_refused t p pointer call time r v = elim (Bool-cases (valid_hook_type t)) [
    | inr i ↦ rw i
    | inl i ↦ elim (Bool-cases (in_range p)) [
      | inl j ↦ absurd (ground arith)
      | inr j ↦ rw (i, not-false j)
    ]
  ]

  -- Whatever Register is asked, a registry in order stays in order, as long as the sequence
  -- number does not wrap around.
  pub register-IsOrdered :
      (t : HookType) (p : ℤ) (hook : Option (ℕ × (HookData → W → W × HookOutcome))) (time : ℕ)
      (r : Registry W)
      → IsOrdered r
      → r.next_sequence + 1 < 2 ^ 64
      → IsOrdered (register t p hook time r).0
  register-IsOrdered t p none time r o n = rw (register_nil t p time r) o
  register-IsOrdered t p (some (pointer, call)) time r o n =
      elim (Bool-cases (valid_hook_type t && in_range p)) [
        | inl v ↦
            register-IsOrdered_valid t p pointer call time r o
              (and_left (valid_hook_type t) (in_range p) v)
              (in_range→InRange p (and_right (valid_hook_type t) (in_range p) v)) n
        | inr v ↦ rw (register_refused t p pointer call time r v) o
      ]
