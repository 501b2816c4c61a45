-- ===== src/Core/Hooks/Isolation.antt =====
-- internal/core/hooks.go: a hook that panics among others.
use marx_agent.Prelude.{
  ◌≡◌, refl, ◌∙◌, String, Bool, true, false, Option, some, List, [], ◌∷◌, ◌++◌, ◌⊎◌, inl, inr,
  arith,
}
use marx_agent.Core.Error.{Error, HookType}
use marx_agent.Core.Session.{HookData, HookOutcome, returned, panicked, HookEntry, Session}
use marx_agent.Core.Hooks.{Identity, Step, next, halt, isolate, after_hook, invoke, trigger_from}

abbrev pub fails : HookOutcome → Bool
fails (returned v (some e)) = true
fails _ = false

pub Step-cases : (st : Step) → ((v : HookData) × (st ≡ next v)) ⊎ ((e : Error) × (st ≡ halt e))
Step-cases (next v) = inl (v, refl)
Step-cases (halt e) = inr (e, refl)

module _ {W : Type 0} (who : Identity) (t : HookType) where
  -- The same data, error and world.
  abbrev pub Same :
      Session W × HookData × Option Error → Session W × HookData × Option Error → Type 0
  Same a b = (a.0.world ≡ b.0.world) × (a.1 ≡ b.1) × (a.2 ≡ b.2)

  isolate-world :
      (e : HookEntry W) (v : String) (s : Session W) → (isolate who t e v s).world ≡ s.world
  unfolding isolate
  isolate-world e v s = ground arith

  after_hook-world :
      (e : HookEntry W) (value : HookData) (o : HookOutcome) (s s' : Session W)
      → s.world ≡ s'.world
      → ((after_hook who t e value o s).0.world ≡ (after_hook who t e value o s').0.world)
        × ((after_hook who t e value o s).1 ≡ (after_hook who t e value o s').1)
  unfolding after_hook isolate
  after_hook-world e value o s s' h = ground arith

  invoke-world :
      (e : HookEntry W) (value : HookData) (s s' : Session W)
      → s.world ≡ s'.world
      → ((invoke who t e value s).0.world ≡ (invoke who t e value s').0.world)
        × ((invoke who t e value s).1 ≡ (invoke who t e value s').1)
  unfolding invoke
  invoke-world e value s s' h =
      let (w, o) = e.call value s'.world in
      rw h (after_hook-world e value o (record s { world = w }) (record s' { world = w }) refl)

  pub trigger_from-next :
      (e : HookEntry W) (es : List (HookEntry W)) (value v : HookData) (s : Session W)
      → (invoke who t e value s).1 ≡ next v
      → trigger_from who t (e ∷ es) value s ≡ trigger_from who t es v (invoke who t e value s).0
  unfolding trigger_from
  trigger_from-next e es value v s q = ground arith

  pub trigger_from-halt :
      (e : HookEntry W) (es : List (HookEntry W)) (value : HookData) (x : Error) (s : Session W)
      → (invoke who t e value s).1 ≡ halt x
      → trigger_from who t (e ∷ es) value s ≡ ((invoke who t e value s).0, value, some x)
  unfolding trigger_from
  trigger_from-halt e es value x s q = ground arith

  trigger_from-Same :
      (es : List (HookEntry W)) (value : HookData) (s s' : Session W)
      → s.world ≡ s'.world
      → Same (trigger_from who t es value s) (trigger_from who t es value s')
  trigger_from-Same [] value s s' h = unfold trigger_from in (h, refl, refl)
  trigger_from-Same (e ∷ es) value s s' h =
      let (worlds, steps) = invoke-world e value s s' h in
      elim (Step-cases (invoke who t e value s').1) [
        | inl (v, q) ↦
            rw (trigger_from-next e es value v s (steps ∙ q), trigger_from-next e es value v s' q)
              (trigger_from-Same es v (invoke who t e value s).0 (invoke who t e value s').0 worlds)
        | inr (x, q) ↦
            rw (trigger_from-halt e es value x s (steps ∙ q), trigger_from-halt e es value x s' q)
              (worlds, refl, refl)
      ]

  invoke_panic :
      (e : HookEntry W) (value : HookData) (s : Session W) (v : String)
      → e.call value s.world ≡ (s.world, panicked v)
      → ((invoke who t e value s).1 ≡ next value) × ((invoke who t e value s).0.world ≡ s.world)
  unfolding invoke after_hook
  invoke_panic e value s v p = rw p (refl, isolate-world e v (record s { world = s.world }))

  -- A hook that panics whatever it is given and leaves the world alone might as well not be
  -- registered: the other hooks of the type bring about the same data, error and world.
  pub trigger_from_panic :
      (xs ys : List (HookEntry W)) (e : HookEntry W) (value : HookData) (s : Session W)
      (message : HookData → W → String)
      → ((v : HookData) (w : W) → e.call v w ≡ (w, panicked (message v w)))
      → Same (trigger_from who t (xs ++ e ∷ ys) value s) (trigger_from who t (xs ++ ys) value s)
  trigger_from_panic [] ys e value s message p =
      rw
        (trigger_from-next e ys value value s
          (invoke_panic e value s (message value s.world) (p value s.world)).0)
        (trigger_from-Same ys value (invoke who t e value s).0 s
          (invoke_panic e value s (message value s.world) (p value s.world)).1)
  trigger_from_panic (x ∷ xs) ys e value s message p =
      elim (Step-cases (invoke who t x value s).1) [
        | inl (v, q) ↦
            rw
              (
                trigger_from-next x (xs ++ e ∷ ys) value v s q,
                trigger_from-next x (xs ++ ys) value v s q,
              )
              (trigger_from_panic xs ys e v (invoke who t x value s).0 message p)
        | inr (y, q) ↦
            rw
              (
                trigger_from-halt x (xs ++ e ∷ ys) value y s q,
                trigger_from-halt x (xs ++ ys) value y s q,
              )
              (refl, refl, refl)
      ]
