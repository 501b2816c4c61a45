-- ===== src/Core/Hooks.antt =====
-- internal/core/hooks.go: registration in order, and the isolation of hooks that panic.
pub mod Order
pub mod Register
pub mod Unregister
pub mod Failures
pub mod Isolation
pub mod Effects
use marx_agent.Prelude.{
  ℕ, suc, ◌+◌, ◌^◌, ◌%◌, String, Bool, true, false, ◌&&◌, ◌||◌, not, Option, none, some, List, [],
  ◌∷◌, ◌++◌, ◌==◌, ltb, drop, length, if◌then◌else◌,
}
use marx_agent.Prelude.Int.{ℤ, pos, negsuc, ltb_ℤ, eq_ℤ}
use marx_agent.Core.Error.{
  Error, HookType, on_event, other_hook, invalid_hook_type, invalid_hook_priority, nil_hook,
  hook_not_registered, hook_failed, external,
}
use marx_agent.Core.Session.{
  HookFailure, Event, EventType, Payload, hook_failure_payload, HookData, HookOutcome, returned,
  panicked, HookEntry, Registry, Session, hook_eq,
}

abbrev pub minimum_hook_priority : ℤ
minimum_hook_priority = negsuc 99

abbrev pub maximum_hook_priority : ℤ
maximum_hook_priority = pos 100

abbrev pub maximum_hook_failures : ℕ
maximum_hook_failures = 256

abbrev pub valid_hook_type : HookType → Bool
valid_hook_type (other_hook s) = false
valid_hook_type _ = true

module _ {W : Type 0} where
  -- The comparison that sort.SliceStable is given.
  abbrev pub entry_lt : HookEntry W → HookEntry W → Bool
  entry_lt a b =
      if eq_ℤ a.priority b.priority then ltb a.sequence b.sequence else ltb_ℤ a.priority b.priority

  -- sort.SliceStable, by insertion: an entry goes behind all that are not greater.
  unfoldable pub insert_entry : HookEntry W → List (HookEntry W) → List (HookEntry W)
  insert_entry e [] = e ∷ []
  insert_entry e (x ∷ xs) = if entry_lt e x then e ∷ x ∷ xs else x ∷ insert_entry e xs

  unfoldable pub sort_from : List (HookEntry W) → List (HookEntry W) → List (HookEntry W)
  sort_from sorted [] = sorted
  sort_from sorted (x ∷ xs) = sort_from (insert_entry x sorted) xs

  -- `entries[hookType] = es`
  abbrev pub put_entries :
      (HookType → List (HookEntry W))
      → HookType
      → List (HookEntry W)
      → HookType
      → List (HookEntry W)
  put_entries entries t es k = if hook_eq t k then es else entries k

  -- The function, its address and the clock's time come from the caller; a nil hook is `none`.
  -- `nextSequence` is a uint64.
  unfoldable pub register :
      HookType
      → ℤ
      → Option (ℕ × (HookData → W → W × HookOutcome))
      → ℕ
      → Registry W
      → Registry W × Option Error
  register t priority none time r =
      if not (valid_hook_type t)
      then (r, some invalid_hook_type)
      else if ltb_ℤ priority minimum_hook_priority || ltb_ℤ maximum_hook_priority priority
      then (r, some invalid_hook_priority)
      else (r, some nil_hook)
  register t priority (some (pointer, call)) time r =
      if not (valid_hook_type t)
      then (r, some invalid_hook_type)
      else if ltb_ℤ priority minimum_hook_priority || ltb_ℤ maximum_hook_priority priority
      then (r, some invalid_hook_priority)
      else let sequence = (r.next_sequence + 1) % 2 ^ 64 in
        let entry : HookEntry W = record {
          pointer = pointer;
          call = call;
          priority = priority;
          sequence = sequence;
          registered_at = time;
          observes = hook_eq t on_event;
        } in
        (
          record r {
            next_sequence = sequence;
            entries = put_entries r.entries t (sort_from [] (r.entries t ++ entry ∷ []));
          },
          none,
        )

  -- `kept` of Unregister.
  unfoldable pub without : ℕ → List (HookEntry W) → List (HookEntry W)
  without pointer [] = []
  without pointer (e ∷ es) =
      if e.pointer == pointer then without pointer es else e ∷ without pointer es

  unfoldable pub has_pointer : ℕ → List (HookEntry W) → Bool
  has_pointer pointer [] = false
  has_pointer pointer (e ∷ es) = e.pointer == pointer || has_pointer pointer es

  -- Deleting a key and storing an empty slice read the same.
  unfoldable pub unregister : HookType → Option ℕ → Registry W → Registry W × Option Error
  unregister t none r =
      if not (valid_hook_type t) then (r, some invalid_hook_type) else (r, some nil_hook)
  unregister t (some pointer) r =
      if not (valid_hook_type t)
      then (r, some invalid_hook_type)
      else if has_pointer pointer (r.entries t)
      then (record r { entries = put_entries r.entries t (without pointer (r.entries t)) }, none)
      else (r, some hook_not_registered)

  unfoldable pub record_failure : HookFailure → Registry W → Registry W
  record_failure f r =
      if length r.failures == maximum_hook_failures
      then record r {
        failures = drop 1 r.failures ++ f ∷ [];
        dropped_failures = r.dropped_failures + 1;
      }
      else record r { failures = r.failures ++ f ∷ [] }

-- What the core asks of the world: json.Marshal of a payload, and the identity of the agent.
pub record Identity : Type 0 where
  pub marshal_error : Payload → Option Error
  pub session_id : String
  pub agent_id : String

abbrev pub value_or : Option HookData → HookData → HookData
value_or none value = value
value_or (some v) value = v

pub data Step : Type 0 where
  next : HookData → Step
  halt : Error → Step

abbrev pub failure_event : Identity → HookFailure → Event
failure_event who f = record {
  type = EventType.error;
  payload = hook_failure_payload f;
  error = some (external "hook panic isolated");
  session_id = who.session_id;
  agent_id = who.agent_id;
}

module _ {W : Type 0} (who : Identity) where
  abbrev publish_failure : HookFailure → Session W → Session W
  publish_failure f s =
      if hook_eq f.type on_event then s else elim (who.marshal_error (hook_failure_payload f)) [
        | some e ↦ s
        | none ↦ record s { published = s.published ++ failure_event who f ∷ [] }
      ]

  -- The failure of a hook that panicked with `v`.
  abbrev pub panic_failure : HookType → HookEntry W → String → HookFailure
  panic_failure t e v = record {
    type = t;
    priority = e.priority;
    registered_at = e.registered_at;
    panic_value = v;
    error = "";
  }

  -- The branch of `trigger` for a panic.
  unfoldable pub isolate : HookType → HookEntry W → String → Session W → Session W
  isolate t e v s =
      let f = panic_failure t e v in
      publish_failure f (record s { registry = record_failure f s.registry })

  -- The body of the loop of `trigger`: the value to go on with, or the error that ends it.
  unfoldable pub after_hook :
      HookType → HookEntry W → HookData → HookOutcome → Session W → Session W × Step
  after_hook t e value (panicked v) s = (isolate t e v s, next value)
  after_hook t e value (returned result (some x)) s = (s, halt (hook_failed t e.priority x))
  after_hook t e value (returned result none) s = (s, next (value_or result value))

  unfoldable pub invoke : HookType → HookEntry W → HookData → Session W → Session W × Step
  invoke t e value s =
      let (w, outcome) = e.call value s.world in
      after_hook t e value outcome (record s { world = w })

  -- The loop of `trigger` over the entries that it copied; a hook's error ends it.
  unfoldable pub trigger_from :
      HookType → List (HookEntry W) → HookData → Session W → Session W × HookData × Option Error
  trigger_from t [] value s = (s, value, none)
  trigger_from t (e ∷ es) value s =
      let (s', step) = invoke t e value s in
      elim step [ halt x ↦ (s', value, some x) | next v ↦ trigger_from t es v s' ]

  unfoldable pub trigger : HookType → HookData → Session W → Session W × HookData × Option Error
  trigger t value s = trigger_from t (s.registry.entries t) value s
