-- ===== src/Subagent/Registry.antt =====
-- internal/engine/subagent/registry.go: Registry, where one caller acts at a time. Its own lock and
-- the broker's are so taken and released within one step.
pub mod Sane
pub mod Runs
mod Tests
pub use marx_agent.Subagent.Agents.{
  State, starting, running, finished, failed, other_state, Spec, Agent, is_main, Handle, Registry,
  RegistryError, no_main_id, not_main, no_spawner, registry_full, agent_exists, no_such_agent,
  mailbox_refused, spawn_failed, nil_context, context_done, new_agent,
}
use marx_agent.Prelude.{
  ℕ, zero, suc, ◌+◌, String, Bool, true, false, ◌&&◌, ◌||◌, not, Option, none, some, List, [], ◌∷◌,
  ltb, leb, length, is_empty, str_eq, str_append, trim_space, if◌then◌else◌,
}
use marx_agent.Prelude.Int.{ℤ, pos, negsuc}
use marx_agent.Core.Message.{Fields}
use marx_agent.Subagent.Broker.{
  Broker, RegisterError, register as register_mailbox, unregister as unregister_mailbox,
}
use marx_agent.Subagent.World.{shut}
use marx_agent.Subagent.Collect.{Context, nil, cancelled, live}
use marx_agent.Subagent.Table.{lookup, has_key, put, remove}

unfoldable pub new_registry : Option Broker → String → ℤ → ℕ → Option Registry
new_registry broker main limit now =
    if is_empty main
    then none
    else some (record {
      broker = broker;
      agents = (main, new_agent main "main" "" running [] now) ∷ [];
      handles = [];
      main_id = main;
      max_agents = limit;
    })

-- `r.maxAgents > 0 && len(r.agents) >= r.maxAgents`
abbrev pub is_at_limit : ℤ → ℕ → Bool
is_at_limit (pos n) count = ltb 0 n && leb n count
is_at_limit (negsuc n) count = false

-- `if r.broker != nil { err := r.broker.Register(id) }`
abbrev pub open_mailbox : String → Option Broker → Option Broker × Option RegisterError
open_mailbox id none = (none, none)
open_mailbox id (some b) = let (b', e) = register_mailbox id b in (some b', e)

-- `if r.broker != nil { r.broker.Unregister(id) }`
abbrev pub drop_mailbox : String → Option Broker → Option Broker
drop_mailbox id none = none
drop_mailbox id (some b) = some (unregister_mailbox id b).0

abbrev pub first_id : String → String → String
first_id id fallback = if is_empty id then fallback else id

-- Spawn behind the spawner.
unfoldable pub spawn_handled : ℕ → Spec → Registry → Option Handle → Registry × Option RegistryError
spawn_handled now s r none =
    (record r { broker = drop_mailbox s.agent_id r.broker }, some spawn_failed)
spawn_handled now s r (some h) =
    let id : String = first_id h.agent_id s.agent_id in
    (
      record r {
        agents = put id (new_agent id s.name s.parent_id h.state s.tools now) r.agents;
        handles = put id h r.handles;
      },
      none,
    )

abbrev pub spawn_opened :
    (Spec → Option Handle)
    → ℕ
    → Spec
    → Registry
    → Option Broker × Option RegisterError
    → Registry × Option RegistryError
spawn_opened make now s r (b, some e) = (record r { broker = b }, some (mailbox_refused e))
spawn_opened make now s r (b, none) = spawn_handled now s (record r { broker = b }) (make s)

unfoldable pub spawn_checked :
    (Spec → Option Handle) → ℕ → Spec → Registry → Registry × Option RegistryError
spawn_checked make now s r =
    if is_at_limit r.max_agents (length r.agents)
    then (r, some registry_full)
    else if has_key s.agent_id r.agents
    then (r, some agent_exists)
    else spawn_opened make now s r (open_mailbox s.agent_id r.broker)

abbrev pub spawn_with :
    Option (Spec → Option Handle) → ℕ → Spec → Registry → Registry × Option RegistryError
spawn_with none now s r = (r, some no_spawner)
spawn_with (some make) now s r = spawn_checked make now s r

-- Register behind the entry in the table.
abbrev pub register_opened :
    String → Registry → Option Broker × Option RegisterError → Registry × Option RegistryError
register_opened id r (b, none) = (record r { broker = b }, none)
register_opened id r (b, some e) =
    (record r { broker = drop_mailbox id b; agents = remove id r.agents }, some (mailbox_refused e))

unfoldable pub register_checked : ℕ → Spec → Registry → Registry × Option RegistryError
register_checked now s r =
    if has_key s.agent_id r.agents
    then (r, some agent_exists)
    else if is_at_limit r.max_agents (length r.agents)
    then (r, some registry_full)
    else register_opened s.agent_id
        (record r {
          agents =
              put s.agent_id (new_agent s.agent_id s.name s.parent_id starting s.tools now)
                r.agents;
        })
        (open_mailbox s.agent_id r.broker)

abbrev pub update_found :
    String → (Agent → Agent) → Registry → Option Agent → Registry × Option RegistryError
update_found id f r none = (r, some no_such_agent)
update_found id f r (some x) = (record r { agents = put id (f x) r.agents }, none)

-- An agent of the table is read, changed and put back: SetSummary, NoteMessage and most of SetState.
unfoldable pub update : String → (Agent → Agent) → Registry → Registry × Option RegistryError
update id f r = update_found id f r (lookup id r.agents)

abbrev pub has_ended : State → Bool
has_ended finished = true
has_ended failed = true
has_ended _ = false

-- SetState on success drops the handle of an agent that is over.
abbrev pub release :
    String → State → Registry × Option RegistryError → Registry × Option RegistryError
release id state (r, some e) = (r, some e)
release id state (r, none) =
    (if has_ended state then record r { handles = remove id r.handles } else r, none)

unfoldable pub set_state : ℕ → String → State → Registry → Registry × Option RegistryError
set_state now id state r =
    release id state (update id (λ x. record x { state = state; updated_at = now }) r)

unfoldable pub set_summary : ℕ → String → String → Registry → Registry × Option RegistryError
set_summary now id summary r = update id (λ x. record x { summary = summary; updated_at = now }) r

-- MessageCount, an int64, counts on here without an end.
unfoldable pub note_message : ℕ → String → Registry → Registry × Option RegistryError
note_message now id r =
    update id (λ x. record x { message_count = x.message_count + 1; updated_at = now }) r

abbrev pub state_of : Option String → State
state_of none = finished
state_of (some text) = failed

abbrev pub note_error : String → Option String → Registry → Registry
note_error id none r = r
note_error id (some text) r = (update id (λ x. record x { err = text }) r).0

abbrev pub finish_set :
    String → Option String → Registry × Option RegistryError → Registry × Option RegistryError
finish_set id failure (r, some e) = (r, some e)
finish_set id failure (r, none) =
    let r' : Registry = note_error id failure r in
    (record r' { broker = drop_mailbox id r'.broker }, none)

-- Finish, with the text of the error of the run, where there is one.
unfoldable pub finish : ℕ → String → Option String → Registry → Registry × Option RegistryError
finish now id failure r = finish_set id failure (set_state now id (state_of failure) r)

unfoldable pub delete_agent : Context → String → String → Registry → Registry × Option RegistryError
delete_agent nil by id r = (r, some nil_context)
delete_agent cancelled by id r = (r, some context_done)
delete_agent live by id r =
    if not (str_eq by r.main_id) || str_eq id r.main_id
    then (r, some not_main)
    else if has_key id r.agents
    then (
      record r {
        broker = drop_mailbox id r.broker;
        agents = remove id r.agents;
        handles = remove id r.handles;
      },
      none,
    )
    else (r, some no_such_agent)

unfoldable pub shutdown : Registry → Registry
shutdown r = record r {
  broker = elim r.broker [ none ↦ none | some b ↦ some (shut b) ];
  handles = [];
}

module _ (itoa : ℕ → String) where
  -- The specification as Spawn and Register complete it.
  abbrev pub completed : String → String → Spec → Registry → Spec
  completed id parent s r = record s {
    agent_id = if is_empty id then str_append "sub-" (itoa (length r.agents)) else id;
    parent_id = parent;
  }

  -- Spawn; the context goes to the spawner alone.
  unfoldable pub spawn :
      Option (Spec → Option Handle) → ℕ → String → Spec → Registry → Registry × Option RegistryError
  spawn make now parent s r =
      if str_eq parent r.main_id
      then spawn_with make now (completed s.agent_id parent s r) r
      else (r, some not_main)

  unfoldable pub register : Context → ℕ → String → Spec → Registry → Registry × Option RegistryError
  register nil now by s r = (r, some nil_context)
  register cancelled now by s r = (r, some context_done)
  register live now by s r =
      if str_eq by r.main_id
      then register_checked now (completed (trim_space s.agent_id) by s r) r
      else (r, some not_main)

  -- What the pool and the tools ask of a registry, with what the spawner answers then.
  pub data Action : Type 0 where
    spawns : Option (Spec → Option Handle) → ℕ → String → Spec → Action
    registers : Context → ℕ → String → Spec → Action
    deletes : Context → String → String → Action
    sets_state : ℕ → String → State → Action
    sets_summary : ℕ → String → String → Action
    notes_message : ℕ → String → Action
    finishes : ℕ → String → Option String → Action
    shuts_down : Action

  unfoldable pub act : Action → Registry → Registry
  act (spawns make now parent s) r = (spawn make now parent s r).0
  act (registers c now by s) r = (register c now by s r).0
  act (deletes c by id) r = (delete_agent c by id r).0
  act (sets_state now id state) r = (set_state now id state r).0
  act (sets_summary now id text) r = (set_summary now id text r).0
  act (notes_message now id) r = (note_message now id r).0
  act (finishes now id failure) r = (finish now id failure r).0
  act shuts_down r = shutdown r

  unfoldable pub act_each : List Action → Registry → Registry
  act_each [] r = r
  act_each (a ∷ rest) r = act_each rest (act a r)
