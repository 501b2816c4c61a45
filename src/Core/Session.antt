-- ===== src/Core/Session.antt =====
-- What one agent keeps while it runs: the messages of internal/core/state.go, the hook registry of
-- hooks.go, the events of event.go that went out, and the world outside the process.
use marx_agent.Prelude.{ℕ, String, Bool, ◌&&◌, Option, List, ◌==◌, str_eq}
use marx_agent.Prelude.Int.{ℤ}
use marx_agent.Core.Message.{
  ContentBlock, Message, Input, StreamChunk, ChatRequest, ToolInvocation, ToolResult,
}
use marx_agent.Core.Error.{
  Error, HookType, pre_loop, post_loop, pre_model_call, post_model_call, tool_call_received,
  pre_tool_exec, post_tool_exec, pre_compact, post_compact, context_inject, sub_agent_spawn,
  sub_agent_done, on_event, other_hook,
}

-- HookFailure: a panic isolated from the loop, or an error of an observer.
pub record HookFailure : Type 0 where
  pub type : HookType
  pub priority : ℤ
  pub registered_at : ℕ
  pub panic_value : String
  pub error : String

-- The payloads of event.go, with the text of an error left to the error.
pub data Payload : Type 0 where
  stream_payload : String → StreamChunk Error → Payload
  tool_call_payload : String → List ContentBlock → Payload
  tool_result_payload : List ToolResult → Payload
  state_change_payload : String → Message → Payload
  error_payload : String → Error → Payload
  hook_failure_payload : HookFailure → Payload
  done_payload : List Message → Payload

pub data EventType : Type 0 where
  stream tool_call tool_result state_change error done sub_agent_message compact partial : EventType

pub record Event : Type 0 where
  pub type : EventType
  pub payload : Payload
  pub error : Option Error
  pub session_id : String
  pub agent_id : String

-- What a hook may be handed and may answer: the `any` of HookFunc. `other_data` is any other type.
pub data HookData : Type 0 where
  input_data : Input → HookData
  request_data : ChatRequest → HookData
  calls_data : List ContentBlock → HookData
  invocation_data : ToolInvocation → HookData
  results_data : List ToolResult → HookData
  result_data : ToolResult → HookData
  state_data : List Message → HookData
  event_data : Event → HookData
  other_data : String → HookData

-- `none` is a nil value.
pub data HookOutcome : Type 0 where
  returned : Option HookData → Option Error → HookOutcome
  panicked : String → HookOutcome

-- The string behind a hook type, as far as two types are told apart by it.
abbrev hook_code : HookType → ℕ
hook_code pre_loop = 0
hook_code post_loop = 1
hook_code pre_model_call = 2
hook_code post_model_call = 3
hook_code tool_call_received = 4
hook_code pre_tool_exec = 5
hook_code post_tool_exec = 6
hook_code HookType.tool_result = 7
hook_code pre_compact = 8
hook_code post_compact = 9
hook_code context_inject = 10
hook_code sub_agent_spawn = 11
hook_code sub_agent_done = 12
hook_code on_event = 13
hook_code (other_hook s) = 14

abbrev hook_text : HookType → String
hook_text (other_hook s) = s
hook_text _ = ""

-- The comparison of two keys of `entries`.
abbrev pub hook_eq : HookType → HookType → Bool
hook_eq a b = hook_code a == hook_code b && str_eq (hook_text a) (hook_text b)

-- `pointer` is the function's address, by which Unregister finds it. A hook may act on the world,
-- but not on the registry: one that calls Register or Unregister is not modelled.
-- `observes` tells that the entry holds a subscription to the bus, which Unregister ends.
pub record HookEntry (W : Type 0) : Type 0 where
  pub pointer : ℕ
  pub call : HookData → W → W × HookOutcome
  pub priority : ℤ
  pub sequence : ℕ
  pub registered_at : ℕ
  pub observes : Bool

pub record Registry (W : Type 0) : Type 0 where
  pub entries : HookType → List (HookEntry W)
  pub next_sequence : ℕ
  pub failures : List HookFailure
  pub dropped_failures : ℕ

-- `published` holds what went to the bus, `delivered` what the run's channel took, `requested` what
-- the provider was asked, each oldest first.
pub record Session (W : Type 0) : Type 0 where
  pub messages : List Message
  pub registry : Registry W
  pub published : List Event
  pub delivered : List Event
  pub requested : List ChatRequest
  pub world : W
