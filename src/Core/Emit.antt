-- ===== src/Core/Emit.antt =====
-- internal/core/agent.go: the assembled agent with what lies outside it, and loop.go: `emit` and the
-- functions that call it.
use marx_agent.Prelude.{ℕ, String, Bool, Option, none, some, List, [], ◌∷◌, ◌++◌, str_append}
use marx_agent.Core.Message.{
  Role, system, user, assistant, tool, other_role, ContentBlock, Message, StreamType, StreamChunk,
  ChatRequest, ToolSpec, ToolResult,
}
use marx_agent.Core.Error.{Error, Result, ok, err}
use marx_agent.Core.Validate.{Std}
use marx_agent.Core.Session.{
  Payload, stream_payload, tool_call_payload, tool_result_payload, state_change_payload,
  error_payload, EventType, Event,
}
use marx_agent.Core.Hooks.{Identity}
use marx_agent.Core.Exec.{Exec}

-- What arrives on a provider's channel while the context is watched: a chunk, or the end of the
-- context. The list ends where the channel is closed.
pub data Arrival : Type 0 where
  chunk : StreamChunk Error → Arrival
  cancelled : Error → Arrival

-- Tool.Execute: its result, its error's text, or the value that it panicked with.
pub data ToolOutcome : Type 0 where
  tool_returned : ToolResult → ToolOutcome
  tool_error : String → ToolOutcome
  tool_panicked : String → ToolOutcome

-- The configuration, and the outside as functions on the world: the random source, the clock, the
-- context, the select of a send on the run's channel, the provider, the tools, and the order in which
-- the runtime lets n goroutines run.
pub record Agent (W : Type 0) : Type 0 where
  pub std : Std
  pub who : Identity
  pub model : String
  pub system_hint : String
  pub max_tokens : ℕ
  pub max_iterations : ℕ
  pub tool_specs : List ToolSpec
  pub registered : String → Bool
  pub new_uuid : W → W × Result String
  pub now : W → W × ℕ
  pub ctx_err : W → W × Option Error
  pub send : Event → W → W × Option Error
  pub chat_stream : ChatRequest → W → W × Result (Option (List Arrival))
  pub execute : String → String → W → W × ToolOutcome
  pub schedule : ℕ → W → W × List ℕ

module _ {W : Type 0} where
  -- An action on the world alone.
  unfoldable pub outside : {A : Type 0} → (W → W × Result A) → Exec W A
  outside f s = let (w, r) = f s.world in (record s { world = w }, r)

abbrev pub as_result : Option Error → Result (Unit {0})
as_result none = ok tt
as_result (some e) = err e

-- `string(message.Role) + "_message_appended"`
abbrev pub role_text : Role → String
role_text system = "system"
role_text user = "user"
role_text assistant = "assistant"
role_text tool = "tool"
role_text (other_role s) = s

abbrev pub state_change_reason : Message → String
state_change_reason m = str_append (role_text m.role) "_message_appended"

module _ {W : Type 0} (a : Agent W) where
  -- newEvent and setEventIdentity; the time stamp is left out.
  abbrev pub new_event : EventType → Payload → Option Error → Event
  new_event type payload error = record {
    type = type;
    payload = payload;
    error = error;
    session_id = a.who.session_id;
    agent_id = a.who.agent_id;
  }

  -- A published event goes to the bus whether or not the channel takes it.
  unfoldable pub emit : EventType → Payload → Option Error → Exec W (Unit {0})
  emit type payload error s = elim (a.who.marshal_error payload) [
    | some e ↦ (s, err e)
    | none ↦
        let event = new_event type payload error in
        let published : List Event = s.published ++ event ∷ [] in
        let (w, refused) = a.send event s.world in
        elim refused [
          | some e ↦ (record s { published = published; world = w }, err e)
          | none ↦ (
            record s { published = published; delivered = s.delivered ++ event ∷ []; world = w },
            ok tt,
          )
        ]
  ]

  unfoldable pub emit_partial : String → StreamChunk Error → Exec W (Unit {0})
  emit_partial id c = emit EventType.partial (stream_payload id c) none

  unfoldable pub emit_stream_completion : String → Exec W (Unit {0})
  emit_stream_completion id =
      emit EventType.stream
        (stream_payload id (record {
          type = StreamType.done;
          text = "";
          tool_call = none;
          thinking_sig = "";
          encrypted_content = "";
          response_id = "";
          err = none;
        }))
        none

  unfoldable pub emit_tool_calls : String → List ContentBlock → Exec W (Unit {0})
  emit_tool_calls id calls = emit EventType.tool_call (tool_call_payload id calls) none

  unfoldable pub emit_tool_results : List ToolResult → Exec W (Unit {0})
  emit_tool_results results = emit EventType.tool_result (tool_result_payload results) none

  unfoldable pub emit_state_change : Message → Exec W (Unit {0})
  emit_state_change m =
      emit EventType.state_change (state_change_payload (state_change_reason m) m) none

  unfoldable pub emit_error : String → Error → Exec W (Unit {0})
  emit_error operation e = emit EventType.error (error_payload operation e) (some e)
