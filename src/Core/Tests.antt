-- ===== src/Core/Tests.antt =====
-- internal/core: one agent in a small world.
mod Loops
mod Tooling
mod Hooking
mod Busy
mod Assembling
use marx_agent.Prelude.{
  ◌≡◌, refl, ℕ, suc, zero, ◌+◌, ◌==◌, ◌<◌, String, Bool, true, false, not, Option, none, some, List,
  [], ◌∷◌, ◌++◌, ◌||◌, arith, str_eq, str_append, if◌then◌else◌, length, inl, inr, ◌⊎◌, Bool-cases,
}
use marx_agent.Prelude.Int.{pos}
use marx_agent.Core.Message.{
  ContentType, ContentBlock, zero_block, Input, InputType, StreamType, StreamChunk, ToolResult, end,
}
use marx_agent.Core.Error.{Error, HookType, Result, ok, err}
use marx_agent.Core.Session.{
  HookData, HookOutcome, returned, panicked, HookEntry, Registry, Session,
}
use marx_agent.Core.Tools.Complete.{IsFair}
use marx_agent.Core.Tools.Slots.{Covers, elem}
use marx_agent.Core.Tools.Unhooked.{Unhooked}
use marx_agent.Core.Validate.{
  Std, value_kind_error, values_kind_error, fields_kind_error, contains_id,
  validate_json_compatible, is_json_object, check_block, validate_content_block,
  validate_calls_from, validate_tool_calls, validate_tool_invocation, validate_tool_result,
}
use marx_agent.Core.Hooks.{
  Identity, register, trigger, trigger_from, insert_entry, sort_from, without, has_pointer,
  unregister, record_failure, isolate, after_hook, invoke,
}
use marx_agent.Core.Exec.{pure, raise, lift, ◌>>=◌, check}
use marx_agent.Core.Emit.{
  Agent, Arrival, chunk, ToolOutcome, tool_returned, tool_error, outside, emit, emit_partial,
  emit_stream_completion, emit_tool_calls, emit_tool_results, emit_state_change, emit_error,
}
use marx_agent.Core.Accumulator.{
  append_or_merge, tool_calls, add_credentials, add_call, add_body, add_unless, add, message,
}
use marx_agent.Core.Tools.{
  run_tools, by_id, reconcile_refused_calls, error_tool_result, refused_tool_result, settled,
  tool_outcome, execute_tool, run_job, run_slots, execute_tools_concurrently, prepare, settle,
  finish_tools,
}
use marx_agent.Core.Inputs.{validate_input}
use marx_agent.Core.Loop.{
  execute_loop, clock, new_id, ask, append_message, append_messages, keep_message, new_user_message,
  build_request, consume_stream, ask_provider, stamped, take_message, join_error, keep_partial,
  keep_incomplete, keep_assistant, tool_result_messages, emit_state_changes, keep_results,
  answer_calls, handle_calls, finish_turn, after_stream, turn, iterate,
}
use marx_agent.Core.Run.{run, start, finish_run}

-- strconv.Quote, which writes the bell as `\a`, and no JSON reader takes that.
abbrev pub quoted : String → String
quoted s = if str_eq s "bell" then "\"\\a\"" else str_append "\"" (str_append s "\"")

abbrev pub demo_std : Std
demo_std = record {
  json_valid = λ s. not (str_eq s "{\"error\":\"\\a\"}");
  marshals = λ m. true;
  trim_space = λ s. s;
  quote = quoted;
  unquote = λ s. none;
}

abbrev pub demo_who : Identity
demo_who = record { marshal_error = λ p. none; session_id = "session"; agent_id = "agent" }

abbrev pub call : String → String → ContentBlock
call id name = record (zero_block ContentType.tool_use) {
  tool_call_id = id;
  tool_name = name;
  input = "{}";
}

abbrev pub text_chunk : String → StreamChunk Error
text_chunk s = record {
  type = StreamType.text;
  text = s;
  tool_call = none;
  thinking_sig = "";
  encrypted_content = "";
  response_id = "";
  err = none;
}

abbrev pub call_chunk : ContentBlock → StreamChunk Error
call_chunk c = record (text_chunk "") { type = StreamType.tool_call; tool_call = some c }

-- The tool `ring` fails, with a text that has a control character.
abbrev pub demo_tool : String → ToolOutcome
demo_tool name =
    if str_eq name "ring"
    then tool_error "bell"
    else tool_returned
        (record { tool_call_id = ""; tool_name = ""; output = "7"; is_error = false; error = "" })

-- The last goroutine runs first.
abbrev pub countdown : ℕ → List ℕ
countdown zero = []
countdown (suc n) = n ∷ countdown n

pub countdown-Covers : (n : ℕ) → Covers n (countdown n)
unfolding elem
countdown-Covers zero i h = absurd (omega arith)
countdown-Covers (suc n) i h = elim (Bool-cases (i == n)) [
  | inl e ↦ rw e
  | inr e ↦ rw e (countdown-Covers n i (ground arith))
]

-- The world counts what it was asked. The provider calls a tool first, and then answers.
abbrev pub demo : Agent ℕ
demo = record {
  std = demo_std;
  who = demo_who;
  model = "model";
  system_hint = "";
  max_tokens = 0;
  max_iterations = 5;
  tool_specs = [];
  registered = λ name. true;
  new_uuid = λ w. (w + 1, ok "uuid");
  now = λ w. (w + 1, w + 1);
  ctx_err = λ w. (w, none);
  send = λ event w. (w, none);
  chat_stream = λ request w. (
    w,
    ok (
        some (
          if length request.messages == 1
          then chunk (text_chunk "Let me ")
            ∷ chunk (text_chunk "look.")
            ∷ chunk (call_chunk (call "a" "look"))
            ∷ []
          else chunk (text_chunk "Seven.") ∷ [])),
  );
  execute = λ name input w. (w + 1, demo_tool name);
  schedule = λ n w. (w, countdown n);
}

abbrev pub no_hooks : Registry ℕ
no_hooks = record { entries = λ t. []; next_sequence = 0; failures = []; dropped_failures = 0 }

abbrev pub fresh : Session ℕ
fresh = record {
  messages = [];
  registry = no_hooks;
  published = [];
  delivered = [];
  requested = [];
  world = 0;
}

abbrev pub question : Input
question = record { type = InputType.text; content = "How many?"; payload = ""; metadata = end }

pub demo-IsFair : IsFair demo
demo-IsFair n w = countdown-Covers n

pub fresh-Unhooked : Unhooked fresh
fresh-Unhooked = record { pre = refl; post = refl; result = refl }

abbrev pub two_calls : List ContentBlock
two_calls = call "a" "look" ∷ call "b" "look" ∷ []

-- Names what the runs below compute with.
unfoldable pub program : Unit {0}
unfolding fields_kind_error contains_id validate_json_compatible is_json_object check_block
    validate_content_block validate_calls_from validate_tool_calls validate_tool_invocation
    validate_tool_result insert_entry sort_from register without has_pointer unregister
    record_failure isolate after_hook invoke trigger_from trigger pure raise lift ◌>>=◌ check
    outside emit emit_partial emit_stream_completion emit_tool_calls emit_tool_results
    emit_state_change emit_error append_or_merge tool_calls add_credentials add_call add_body
    add_unless add message by_id reconcile_refused_calls error_tool_result refused_tool_result
    settled tool_outcome execute_tool run_job run_slots execute_tools_concurrently prepare settle
    finish_tools run_tools validate_input clock new_id ask append_message append_messages
    keep_message new_user_message build_request consume_stream ask_provider stamped take_message
    join_error keep_partial keep_incomplete keep_assistant tool_result_messages emit_state_changes
    keep_results answer_calls handle_calls finish_turn after_stream turn iterate execute_loop start
    finish_run run
program = tt
