-- ===== src/Core/Hooks/Failures.antt =====
-- internal/core/hooks.go: the log of failures.
use marx_agent.Prelude.{
  suc, ◌-◌, ◌≤◌, ◌<◌, ◌≡◌, refl, sym, ap, ◌∙◌, List, [], ◌∷◌, ◌++◌, inl, inr, arith, Bool-cases,
  drop, length, length-append, length-drop, drop-append, drop-drop, ◌==◌,
}
use marx_agent.Core.Session.{HookFailure, Registry}
use marx_agent.Core.Hooks.{record_failure, maximum_hook_failures}

module _ {W : Type 0} where
  -- The log holds the newest 256 of a history and counts the others.
  pub record Remembers (r : Registry W) (history : List HookFailure) : Type 0 where
    pub newest : r.failures ≡ drop (length history - maximum_hook_failures) history
    pub counted : r.dropped_failures ≡ length history - maximum_hook_failures

  pub record_failure-Remembers :
      (f : HookFailure) (r : Registry W) (h : List HookFailure)
      → Remembers r h
      → Remembers (record_failure f r) (h ++ f ∷ [])
  unfolding record_failure
  record_failure-Remembers f r h m =
      elim (Bool-cases (length r.failures == maximum_hook_failures)) [
        | inl full ↦
            let many : 256 ≤ length h =
              ground (arith, ap length m.newest, length-drop (length h - 256) h) in
            let next : length (h ++ f ∷ []) - 256 ≡ suc (length h - 256) =
              omega (arith, length-append h (f ∷ [])) in
            rw full (record {
              newest =
                  rw (m.newest, next, drop-drop)
                    (sym (drop-append (suc (length h - 256)) h (f ∷ []) (omega arith)));
              counted = omega (arith, m.counted, next);
            })
        | inr room ↦
            let few : length h < 256 =
              ground (arith, ap length m.newest, length-drop (length h - 256) h) in
            let now : length h - 256 ≡ 0 = omega arith in
            let next : length (h ++ f ∷ []) - 256 ≡ 0 = omega (arith, length-append h (f ∷ [])) in
            let whole : r.failures ≡ h = m.newest ∙ ap (λ n. drop n h) now in
            rw room (record {
              newest = rw (next, whole) refl;
              counted = omega (arith, m.counted, now, next);
            })
      ]
