-- ===== src/Core/Loop.antt =====
-- internal/core/loop.go: the reasoning and tool loop, and the life of one run.
pub mod Steps
pub mod Journal
pub mod Moves
pub mod Sourcing
pub mod Bounds
pub mod Streaming
use marx_agent.Prelude.{
  ℕ, zero, suc, String, Bool, true, false, Option, none, some, List, [], ◌∷◌, ◌++◌, ◌||◌, not,
  is_empty, str_eq, if◌then◌else◌,
}
use marx_agent.Core.Message.{
  user, tool, ContentType, ContentBlock, zero_block, Message, Input, InputType, ChatRequest,
  ToolResult, Value, Fields, end, field, str,
}
use marx_agent.Core.Error.{
  Error, HookType, pre_loop, post_loop, pre_model_call, post_model_call, tool_call_received,
  context_inject, hook_returned, pre_loop_input, provider_failed, nil_stream, max_iterations,
  received_invalid_call, text_empty, image_empty, image_source_kind, media_format_kind,
  structured_data, unsupported_input, joined, Result, ok, err, ◌or_else◌,
}
use marx_agent.Core.Validate.{Std, validate_json_compatible, validate_tool_calls}
use marx_agent.Core.Inputs.{validate_input, user_block}
use marx_agent.Core.Session.{
  HookData, input_data, request_data, calls_data, state_data, Payload, done_payload, EventType,
  Event, Session,
}
use marx_agent.Core.Hooks.{trigger}
use marx_agent.Core.Accumulator.{Accumulator, empty_accumulator, add, message, tool_calls}
use marx_agent.Core.Exec.{Exec, pure, raise, lift, check, ◌>>=◌, ◌>>◌}
use marx_agent.Core.Emit.{
  Agent, Arrival, chunk, cancelled, outside, as_result, emit_partial, emit_stream_completion,
  emit_tool_calls, emit_tool_results, emit_state_change,
}
use marx_agent.Core.Tools.{reconcile_refused_calls, run_tools}

-- Whether the loop goes round again.
pub data Next : Type 0 where
  again stop : Next

module _ {W : Type 0} (a : Agent W) where
  unfoldable pub clock : Exec W ℕ
  clock = outside (λ w. let (w', t) = a.now w in (w', ok t))

  unfoldable pub new_id : Exec W String
  new_id = outside a.new_uuid

  -- A call of the hooks, and the test of its answer's type.
  unfoldable pub ask : {A : Type 0} → HookType → HookData → (HookData → Option A) → Exec W A
  ask t value as_answer s =
      let (s', answer, failed) = trigger a.who t value s in
      elim failed [
        | some e ↦ (s', err e)
        | none ↦ elim (as_answer answer) [
          | some x ↦ (s', ok x)
          | none ↦ (s', err (hook_returned t))
        ]
      ]

  abbrev as_input : HookData → Option Input
  as_input (input_data i) = some i
  as_input _ = none

  abbrev as_request : HookData → Option ChatRequest
  as_request (request_data r) = some r
  as_request _ = none

  abbrev as_calls : HookData → Option (List ContentBlock)
  as_calls (calls_data cs) = some cs
  as_calls _ = none

  unfoldable pub append_message : Message → Exec W (Unit {0})
  append_message m s = (record s { messages = s.messages ++ m ∷ [] }, ok tt)

  unfoldable pub append_messages : List Message → Exec W (Unit {0})
  append_messages ms s = (record s { messages = s.messages ++ ms }, ok tt)

  -- `a.state.appendMessage(m)` and `a.emitStateChange(ctx, events, m)`, which always stand together.
  unfoldable pub keep_message : Message → Exec W (Unit {0})
  keep_message m = append_message m >> emit_state_change a m

  unfoldable pub new_user_message : Input → Exec W Message
  new_user_message i = do
    id ← new_id
    time ← clock
    pure (record {
      id = id;
      role = user;
      content = user_block i.type i ∷ [];
      created_at = time;
      metadata = i.metadata;
      incomplete = false;
    })

  unfoldable pub build_request : Exec W ChatRequest
  build_request s =
      let request : ChatRequest = record {
        model = a.model;
        messages = s.messages;
        tools = a.tool_specs;
        system_hint = a.system_hint;
        max_tokens = a.max_tokens;
        cache_key = "";
      } in
      (do
        hooked ← ask pre_model_call (request_data request) as_request
        ask context_inject (request_data hooked) as_request)
        s

  -- consumeStream: the accumulator comes back beside an error too.
  unfoldable pub consume_stream :
      String → List Arrival → Accumulator → Session W → Session W × Accumulator × Option Error
  consume_stream id [] acc s = (s, acc, none)
  consume_stream id (cancelled e ∷ arrivals) acc s = (s, acc, some e)
  consume_stream id (chunk c ∷ arrivals) acc s =
      let (s', sent) = emit_partial a id c s in
      elim sent [
        | err e ↦ (s', acc, some e)
        | ok _ ↦
            let (acc', refused) = add a.std c acc in
            elim refused [ some e ↦ (s', acc', some e) | none ↦ consume_stream id arrivals acc' s' ]
      ]

  abbrev provider_answer : Result (Option (List Arrival)) → Result (List Arrival)
  provider_answer (err e) = err (provider_failed e)
  provider_answer (ok none) = err nil_stream
  provider_answer (ok (some arrivals)) = ok arrivals

  unfoldable pub ask_provider : ChatRequest → Exec W (List Arrival)
  ask_provider request s =
      let (w, answer) = a.chat_stream request s.world in
      (record s { world = w; requested = s.requested ++ request ∷ [] }, provider_answer answer)

  unfoldable pub stamped : Accumulator → String → Option Message → Exec W (Option Message)
  stamped acc id none = pure none
  stamped acc id (some _) = do time ← clock; pure (message acc id false time)

  -- `accumulator.message(messageID, false)`: the clock is read only if there is a message.
  unfoldable pub take_message : Accumulator → String → Exec W (Option Message)
  take_message acc id = stamped acc id (message acc id false 0)

  abbrev pub join : Error → Result (Unit {0}) → Result (Unit {0})
  join first (ok x) = ok x
  join first (err e) = err (joined first e)

  -- `errors.Join(first, err)` around an action.
  unfoldable pub join_error : Error → Exec W (Unit {0}) → Exec W (Unit {0})
  join_error first m s = let (s', r) = m s in (s', join first r)

  unfoldable pub keep_partial : Error → Option Message → Exec W (Unit {0})
  keep_partial e none = raise e
  keep_partial e (some m) = join_error e (keep_message (record m { incomplete = true })) >> raise e

  -- The branch of executeLoop for a stream that failed: what arrived is kept, marked incomplete.
  unfoldable pub keep_incomplete : Accumulator → String → Error → Exec W (Unit {0})
  keep_incomplete acc id e = do kept ← take_message acc id; keep_partial e kept

  abbrev message_id : Option Message → String
  message_id none = ""
  message_id (some m) = m.id

  -- The assistant message of a whole stream: kept, the stream's end announced, the change announced.
  unfoldable pub keep_assistant : Option Message → Exec W (Unit {0})
  keep_assistant none = pure tt
  keep_assistant (some m) = do
    append_message m
    emit_stream_completion a m.id
    emit_state_change a m

  -- toolResultBlock and toolResultMessages.
  abbrev tool_result_block : ToolResult → ContentBlock
  tool_result_block r = record (zero_block ContentType.tool_result) {
    tool_call_id = r.tool_call_id;
    tool_name = r.tool_name;
    output = r.output;
    is_error = r.is_error;
  }

  unfoldable pub tool_result_messages : List ToolResult → Exec W (List Message)
  tool_result_messages [] = pure []
  tool_result_messages (r ∷ rs) = do
    id ← new_id
    time ← clock
    rest ← tool_result_messages rs
    pure (
        record {
          id = id;
          role = tool;
          content = tool_result_block r ∷ [];
          created_at = time;
          metadata = end;
          incomplete = false;
        }
        ∷ rest)

  unfoldable pub emit_state_changes : List Message → Exec W (Unit {0})
  emit_state_changes [] = pure tt
  emit_state_changes (m ∷ ms) = emit_state_change a m >> emit_state_changes ms

  unfoldable pub keep_results : List ToolResult → Exec W (Unit {0})
  keep_results [] = pure tt
  keep_results (r ∷ rs) = do
    emit_tool_results a (r ∷ rs)
    messages ← tool_result_messages (r ∷ rs)
    append_messages messages
    emit_state_changes messages

  abbrev pub with_error : Option Error → Exec W (Unit {0}) → Exec W (Unit {0})
  with_error none m = m
  with_error (some e) m = join_error e m

  -- runTools and what executeLoop does with its results and its error.
  unfoldable pub answer_calls : List ContentBlock → Exec W (Unit {0})
  answer_calls calls s =
      let (s', results, failed) = run_tools a calls s in
      (with_error failed (keep_results results) >> check failed) s'

  abbrev wrap : (Error → Error) → Option Error → Option Error
  wrap f none = none
  wrap f (some e) = some (f e)

  -- The calls of one turn: the gate, the refusals put back, the tools.
  unfoldable pub handle_calls : String → List ContentBlock → Exec W Next
  handle_calls id [] = pure stop
  handle_calls id (c ∷ cs) = do
    accepted ← ask tool_call_received (calls_data (c ∷ cs)) as_calls
    check (wrap received_invalid_call (validate_tool_calls a.std accepted))
    let calls = reconcile_refused_calls a.std (c ∷ cs) accepted
    emit_tool_calls a id calls
    answer_calls calls
    pure again

  -- executeLoop behind a stream that was consumed to its end.
  unfoldable pub finish_turn : ChatRequest → String → Accumulator → Exec W Next
  finish_turn request id acc = do
    kept ← take_message acc id
    keep_assistant kept
    ask post_model_call (request_data request) as_request
    handle_calls (message_id kept) (tool_calls acc.content)

  -- The accumulator and the error of consumeStream, one after the other.
  unfoldable pub after_stream : ChatRequest → String → Accumulator → Option Error → Exec W Next
  after_stream request id acc (some e) = do keep_incomplete acc id e; raise e
  after_stream request id acc none = finish_turn request id acc

  -- One iteration of the `for` of executeLoop.
  unfoldable pub turn : Exec W Next
  turn = do
    outside (λ w. let (w', e) = a.ctx_err w in (w', as_result e))
    request ← build_request
    id ← new_id
    arrivals ← ask_provider request
    λ s.
        let (s', acc, failed) = consume_stream id arrivals empty_accumulator s in
        after_stream request id acc failed s'

  unfoldable pub iterate : ℕ → Exec W (Unit {0})
  iterate zero = raise max_iterations
  iterate (suc n) = do
    next ← turn
    let rest = iterate n in elim next [ again ↦ rest | stop ↦ pure tt ]

  unfoldable pub execute_loop : Input → Exec W (Unit {0})
  execute_loop i = do
    hooked ← ask pre_loop (input_data i) as_input
    check (wrap pre_loop_input (validate_input a.std hooked))
    m ← new_user_message hooked
    keep_message m
    iterate a.max_iterations
