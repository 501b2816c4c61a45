-- ===== src/Core/Tests/Hooking.antt =====
-- internal/core/hooks.go: hooks registered, called, isolated.
use marx_agent.Prelude.{◌≡◌, refl, ℕ, ◌+◌, arith, true, false, none, some, [], ◌∷◌, map}
use marx_agent.Prelude.Int.{pos, negsuc}
use marx_agent.Core.Error.{HookType, pre_loop}
use marx_agent.Core.Session.{
  HookData, other_data, HookOutcome, returned, panicked, HookEntry, Registry, Session, hook_eq,
}
use marx_agent.Core.Hooks.{register, unregister, trigger, trigger_from}
use marx_agent.Core.Hooks.Register.{
  IsOrdered, InRange, new_entry, register-place, register-IsOrdered,
}
use marx_agent.Core.Hooks.Unregister.{unregister-register}
use marx_agent.Core.Hooks.Failures.{Remembers}
use marx_agent.Core.Hooks.Isolation.{Same, trigger_from_panic}
use marx_agent.Core.Hooks.Effects.{panics, trigger-Remembers}
use marx_agent.Core.Tests.{program, demo_who, no_hooks, fresh}

abbrev counting : HookData → ℕ → ℕ × HookOutcome
counting v w = (w + 1, returned none none)

abbrev panicking : HookData → ℕ → ℕ × HookOutcome
panicking v w = (w, panicked "boom")

no_hooks-IsOrdered : IsOrdered no_hooks
no_hooks-IsOrdered = record { sorted = λ t. tt; numbered = λ t. tt; bounded = λ t. tt }

-- One hook before the loop, of priority 5.
abbrev one_hook : Registry ℕ
one_hook = (register pre_loop (pos 5) (some (1, counting)) 10 no_hooks).0

one_hook-IsOrdered : IsOrdered one_hook
one_hook-IsOrdered =
    register-IsOrdered pre_loop (pos 5) (some (1, counting)) 10 no_hooks no_hooks-IsOrdered
      (omega arith)

-- A hook of priority -3 goes before the one of priority 5.
three-InRange : InRange (negsuc 2)
three-InRange = (omega arith, omega arith)

register-place_example :
    let (r, refused) = register pre_loop (negsuc 2) (some (2, panicking)) 20 one_hook in
    (refused ≡ none)
    × (r.entries pre_loop
        ≡ new_entry pre_loop (negsuc 2) 2 panicking 20 one_hook ∷ one_hook.entries pre_loop)
    × ((k : HookType) → hook_eq pre_loop k ≡ false → r.entries k ≡ one_hook.entries k)
unfolding program
register-place_example =
    register-place pre_loop (negsuc 2) 2 panicking 20 one_hook one_hook-IsOrdered refl three-InRange
      (omega arith)

unregister-register_example :
    let u =
      unregister pre_loop
        (some 2)
        (register pre_loop (negsuc 2) (some (2, panicking)) 20 one_hook).0 in
    (u.1 ≡ none)
    × ((k : HookType) → hook_eq pre_loop k ≡ true → u.0.entries k ≡ one_hook.entries pre_loop)
    × ((k : HookType) → hook_eq pre_loop k ≡ false → u.0.entries k ≡ one_hook.entries k)
unfolding program
unregister-register_example =
    unregister-register pre_loop (negsuc 2) 2 panicking 20 one_hook one_hook-IsOrdered refl
      three-InRange (omega arith) refl

-- The session whose loop starts with a hook that panics, between two that count.
abbrev guarded : Session ℕ
guarded = record fresh {
  registry =
      (register pre_loop (pos 7) (some (1, counting)) 30
        (register pre_loop (pos 6) (some (2, panicking)) 20 one_hook).0).0;
}

three_hooks : map (λ e. e.pointer) (guarded.registry.entries pre_loop) ≡ 1 ∷ 2 ∷ 1 ∷ []
unfolding program
three_hooks = refl

one_failure :
    map
      (λ f. f.panic_value)
      (panics demo_who pre_loop (guarded.registry.entries pre_loop) (other_data "x") guarded.world)
    ≡ "boom" ∷ []
unfolding program panics
one_failure = refl

trigger-Remembers_example :
    Remembers
      (trigger demo_who pre_loop (other_data "x") guarded).0.registry
      (panics demo_who pre_loop (guarded.registry.entries pre_loop) (other_data "x") guarded.world)
unfolding program
trigger-Remembers_example =
    trigger-Remembers demo_who pre_loop (other_data "x") guarded []
      (record { newest = refl; counted = refl })

abbrev entry : ℕ → (HookData → ℕ → ℕ × HookOutcome) → HookEntry ℕ
entry n call = new_entry pre_loop (pos n) n call n no_hooks

trigger_from_panic_example :
    Same demo_who pre_loop
      (trigger_from demo_who pre_loop
        (entry 1 counting ∷ entry 2 panicking ∷ entry 3 counting ∷ [])
        (other_data "x")
        fresh)
      (trigger_from demo_who pre_loop
        (entry 1 counting ∷ entry 3 counting ∷ [])
        (other_data "x")
        fresh)
trigger_from_panic_example =
    trigger_from_panic demo_who pre_loop (entry 1 counting ∷ []) (entry 3 counting ∷ [])
      (entry 2 panicking) (other_data "x") fresh (λ v w. "boom") (λ v w. refl)
