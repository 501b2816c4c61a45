-- ===== src/Core/Hooks/Effects.antt =====
-- internal/core/hooks.go: what running the hooks of a type does to the session.
use mathlib.Core.Path.{subst}
use marx_agent.Prelude.{
  ◌≡◌, refl, ap, ◌∙◌, ◌⊎◌, Option, String, false, none, some, List, [], ◌∷◌, ◌++◌, inl, inr, ◌≢◌,
  All, arith, append_assoc, append-nil,
}
use marx_agent.Core.Error.{Error, HookType}
use marx_agent.Core.Session.{
  HookFailure, HookData, HookOutcome, returned, panicked, HookEntry, Session,
}
use marx_agent.Core.Journal.{Quiet, Quiet-refl, Quiet-trans, replay, replay-append}
use marx_agent.Core.Hooks.{
  Identity, failure_event, panic_failure, next, halt, record_failure, isolate, after_hook, invoke,
  value_or, trigger_from, trigger,
}
use marx_agent.Core.Hooks.Failures.{Remembers, record_failure-Remembers}
use marx_agent.Core.Hooks.Isolation.{Step-cases, trigger_from-next, trigger_from-halt, fails}

-- What the next hook gets, where there is a next one.
abbrev handed_on : HookData → HookOutcome → Option HookData
handed_on value (panicked v) = some value
handed_on value (returned result (some x)) = none
handed_on value (returned result none) = some (value_or result value)

Outcome-cases :
    {W : Type 0} (p : W × HookOutcome)
    → ((w : W) × (v : String) × (p ≡ (w, panicked v)))
      ⊎ (((w : W) × (result : Option HookData) × (p ≡ (w, returned result none)))
          ⊎ ((w : W) × (result : Option HookData) × (x : Error) × (p
                ≡ (w, returned result (some x)))))
Outcome-cases (w, panicked v) = inl (w, v, refl)
Outcome-cases (w, returned result none) = inr (inl (w, result, refl))
Outcome-cases (w, returned result (some x)) = inr (inr (w, result, x, refl))

module _ {W : Type 0} (who : Identity) (t : HookType) where
  isolate-Quiet : (e : HookEntry W) (v : String) (s : Session W) → Quiet s (isolate who t e v s)
  unfolding isolate
  isolate-Quiet e v s = ground (
    arith,
    replay-append s.published (failure_event who (panic_failure who t e v) ∷ []),
    append-nil (replay s.published),
  )

  after_hook-Quiet :
      (e : HookEntry W) (value : HookData) (o : HookOutcome) (s : Session W)
      → Quiet s (after_hook who t e value o s).0
  unfolding after_hook
  after_hook-Quiet e value (panicked v) s = isolate-Quiet e v s
  after_hook-Quiet e value (returned v (some x)) s = Quiet-refl s
  after_hook-Quiet e value (returned v none) s = Quiet-refl s

  invoke-Quiet :
      (e : HookEntry W) (value : HookData) (s : Session W) → Quiet s (invoke who t e value s).0
  unfolding invoke
  invoke-Quiet e value s =
      let (w, o) = e.call value s.world in
      Quiet-trans {t = record s { world = w }}
        (record { messages_same = refl; replay_same = refl; requests_same = refl })
        (after_hook-Quiet e value o (record s { world = w }))

  trigger_from-Quiet :
      (es : List (HookEntry W)) (value : HookData) (s : Session W)
      → Quiet s (trigger_from who t es value s).0
  trigger_from-Quiet [] value s = unfold trigger_from in Quiet-refl s
  trigger_from-Quiet (e ∷ es) value s = elim (Step-cases (invoke who t e value s).1) [
    | inl (v, q) ↦
        rw (trigger_from-next who t e es value v s q) (
          Quiet-trans (invoke-Quiet e value s) (trigger_from-Quiet es v (invoke who t e value s).0))
    | inr (x, q) ↦ rw (trigger_from-halt who t e es value x s q) (invoke-Quiet e value s)
  ]

  pub trigger-Quiet : (value : HookData) (s : Session W) → Quiet s (trigger who t value s).0
  unfolding trigger
  trigger-Quiet value s = trigger_from-Quiet (s.registry.entries t) value s

  abbrev failure_of : HookEntry W → HookOutcome → List HookFailure
  failure_of e (panicked v) = panic_failure who t e v ∷ []
  failure_of e (returned result failed) = []

  -- The failures of the hooks that panic when the hooks run alone, one after the other: each gets
  -- what the last one answered, one that panics is passed over, and an error ends the run.
  unfoldable pub panics : List (HookEntry W) → HookData → W → List HookFailure
  panics [] value w = []
  panics (e ∷ es) value w =
      let (w', outcome) = e.call value w in
      failure_of e outcome ++ elim (handed_on value outcome) [ none ↦ [] | some v ↦ panics es v w' ]

  isolate-registry :
      (e : HookEntry W) (v : String) (s : Session W)
      → (isolate who t e v s).registry ≡ record_failure (panic_failure who t e v) s.registry
  unfolding isolate
  isolate-registry e v s = ground arith

  isolate-world :
      (e : HookEntry W) (v : String) (s : Session W) → (isolate who t e v s).world ≡ s.world
  unfolding isolate
  isolate-world e v s = ground arith

  invoke-after_hook :
      (e : HookEntry W) (value : HookData) (s : Session W) (p : W × HookOutcome)
      → e.call value s.world ≡ p
      → invoke who t e value s ≡ after_hook who t e value p.1 (record s { world = p.0 })
  unfolding invoke
  invoke-after_hook e value s p q =
      ap (λ r. after_hook who t e value r.1 (record s { world = r.0 })) q

  trigger_from-resumed :
      (e : HookEntry W) (es : List (HookEntry W)) (value v : HookData) (s u : Session W)
      → invoke who t e value s ≡ (u, next v)
      → trigger_from who t (e ∷ es) value s ≡ trigger_from who t es v u
  trigger_from-resumed e es value v s u i =
      trigger_from-next who t e es value v s (ap (λ r. r.1) i)
      ∙ ap (λ r. trigger_from who t es v r.0) i

  trigger_from-Remembers :
      (es : List (HookEntry W)) (value : HookData) (s : Session W) (h : List HookFailure)
      → Remembers s.registry h
      → Remembers (trigger_from who t es value s).0.registry (h ++ panics es value s.world)
  unfolding panics after_hook
  trigger_from-Remembers [] value s h m = unfold trigger_from in rw append-nil m
  trigger_from-Remembers (e ∷ es) value s h m = elim (Outcome-cases (e.call value s.world)) [
    | inl (w, v, q) ↦
        let u : Session W = isolate who t e v (record s { world = w }) in
        let f : HookFailure = panic_failure who t e v in
        let noted : Remembers u.registry (h ++ f ∷ []) =
          rw (isolate-registry e v (record s { world = w }))
            (record_failure-Remembers f s.registry h m) in
        let same : u.world ≡ w = isolate-world e v (record s { world = w }) in
        rw
          (
            trigger_from-resumed e es value value s u
                (invoke-after_hook e value s (w, panicked v) q),
            q,
            ap (λ p. p.0) q,
          )
          (subst (λ l. Remembers (trigger_from who t es value u).0.registry l)
            (append_assoc h (f ∷ []) (panics es value u.world)
              ∙ ap (λ x. h ++ f ∷ panics es value x) same)
            (trigger_from-Remembers es value u (h ++ f ∷ []) noted))
    | inr (inl (w, result, q)) ↦
        let u : Session W = record s { world = w } in
        rw
          (
            trigger_from-resumed e es value (value_or result value) s u
                (invoke-after_hook e value s (w, returned result none) q),
            q,
            ap (λ p. p.0) q,
          )
          (trigger_from-Remembers es (value_or result value) u h m)
    | inr (inr (w, result, x, q)) ↦
        let i = invoke-after_hook e value s (w, returned result (some x)) q in
        rw (trigger_from-halt who t e es value _ s (ap (λ r. r.1) i), i, q, append-nil) m
  ]

  -- Where the log of a registry keeps the newest 256 failures of a history and counts the others,
  -- it keeps behind trigger the newest 256 of that history followed by exactly the failures of
  -- the hooks that panic in this run, in their order, and counts the others: what panics is told
  -- by running the hooks alone, each on what the last one answered.
  pub trigger-Remembers :
      (value : HookData) (s : Session W) (h : List HookFailure)
      → Remembers s.registry h
      → Remembers
          (trigger who t value s).0.registry
          (h ++ panics (s.registry.entries t) value s.world)
  unfolding trigger
  trigger-Remembers value s h m = trigger_from-Remembers (s.registry.entries t) value s h m

  after_hook-halt :
      (e : HookEntry W) (value : HookData) (o : HookOutcome) (s : Session W) (x : Error)
      → fails o ≡ false
      → (after_hook who t e value o s).1 ≢ halt x
  unfolding after_hook
  after_hook-halt e value o s x f q = ground arith

  invoke-halt :
      (e : HookEntry W) (value : HookData) (s : Session W) (x : Error)
      → fails (e.call value s.world).1 ≡ false
      → (invoke who t e value s).1 ≢ halt x
  unfolding invoke
  invoke-halt e value s x f =
      after_hook-halt e value (e.call value s.world).1
        (record s { world = (e.call value s.world).0 }) x f

  trigger_from-none :
      (es : List (HookEntry W)) (value : HookData) (s : Session W)
      → All (λ e. (v : HookData) (w : W) → fails (e.call v w).1 ≡ false) es
      → (trigger_from who t es value s).2 ≡ none
  trigger_from-none [] value s h = unfold trigger_from in refl
  trigger_from-none (e ∷ es) value s h = elim (Step-cases (invoke who t e value s).1) [
    | inl (v, q) ↦
        rw (trigger_from-next who t e es value v s q)
          (trigger_from-none es v (invoke who t e value s).0 h.1)
    | inr (x, q) ↦ absurd (invoke-halt e value s x (h.0 value s.world) q)
  ]

  -- An error of the hooks is an error that one of them returned: where every hook of the type
  -- answers or panics, whatever it is given, trigger returns no error.
  pub trigger-none :
      (value : HookData) (s : Session W)
      → All (λ e. (v : HookData) (w : W) → fails (e.call v w).1 ≡ false) (s.registry.entries t)
      → (trigger who t value s).2 ≡ none
  unfolding trigger
  trigger-none value s h = trigger_from-none (s.registry.entries t) value s h
