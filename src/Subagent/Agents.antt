-- ===== src/Subagent/Agents.antt =====
-- internal/engine/subagent/registry.go: the records of a registry of agents.
use marx_agent.Prelude.{ℕ, String, Bool, Option, List, is_empty}
use marx_agent.Prelude.Int.{ℤ}
use marx_agent.Core.Message.{Fields}
use marx_agent.Subagent.Broker.{Broker, RegisterError}

pub data State : Type 0 where
  starting : State
  running : State
  finished : State
  failed : State
  other_state : String → State

pub record Spec : Type 0 where
  pub name : String
  pub system_prompt : String
  pub parent_id : String
  pub agent_id : String
  pub tools : List String
  pub metadata : Fields

-- `err` is empty where there is none.
pub record Agent : Type 0 where
  pub id : String
  pub name : String
  pub parent_id : String
  pub state : State
  pub tools : List String
  pub summary : String
  pub message_count : ℕ
  pub created_at : ℕ
  pub updated_at : ℕ
  pub err : String

abbrev pub is_main : Agent → Bool
is_main x = is_empty x.parent_id

-- What AgentID and State of a handle answer when the agent is made.
pub record Handle : Type 0 where
  pub agent_id : String
  pub state : State

pub record Registry : Type 0 where
  pub broker : Option Broker
  pub agents : List (String × Agent)
  pub handles : List (String × Handle)
  pub main_id : String
  pub max_agents : ℤ

pub data RegistryError : Type 0 where
  no_main_id : RegistryError
  not_main : RegistryError
  no_spawner : RegistryError
  registry_full : RegistryError
  agent_exists : RegistryError
  no_such_agent : RegistryError
  mailbox_refused : RegisterError → RegistryError
  spawn_failed : RegistryError
  nil_context : RegistryError
  context_done : RegistryError

abbrev pub new_agent : String → String → String → State → List String → ℕ → Agent
new_agent id name parent state tools now = record {
  id = id;
  name = name;
  parent_id = parent;
  state = state;
  tools = tools;
  summary = "";
  message_count = 0;
  created_at = now;
  updated_at = now;
  err = "";
}
