-- ===== src/Core/Tools.antt =====
-- internal/core/loop.go: a turn's tool calls, from a gate's answer to the settled results.
pub mod Slots
pub mod Answers
pub mod Unhooked
pub mod Complete
use marx_agent.Prelude.{
  ℕ, String, true, false, Option, none, some, List, [], ◌∷◌, map, ◌==◌, is_empty, str_eq,
  str_append, if◌then◌else◌, length, get_elem?, set,
}
use marx_agent.Core.Message.{ContentBlock, ToolInvocation, ToolResult}
use marx_agent.Core.Error.{Error, HookType, hook_returned, result_count, Result, ok, err}
use marx_agent.Core.Validate.{Std, validate_tool_invocation, validate_tool_result}
use marx_agent.Core.Session.{HookData, invocation_data, results_data, result_data, Session}
use marx_agent.Core.Hooks.{trigger}
use marx_agent.Core.Emit.{Agent, ToolOutcome, tool_returned, tool_error, tool_panicked}

-- `byID`: the last call with the ID.
unfoldable pub by_id : String → List ContentBlock → Option ContentBlock
by_id id [] = none
by_id id (c ∷ cs) = elim (by_id id cs) [
  | some d ↦ some d
  | none ↦ if str_eq c.tool_call_id id then some c else none
]

-- fmt.Sprintf("tool %q was refused by policy before it ran", name)
abbrev pub refusal_text : Std → String → String
refusal_text std name =
    str_append "tool " (str_append (std.quote name) " was refused by policy before it ran")

-- `{"error":"..."}`
abbrev pub error_output : Std → String → String
error_output std text = str_append "{\"error\":" (str_append (std.quote text) "}")

module _ (std : Std) where
  abbrev pub refuse : ContentBlock → ContentBlock
  refuse call = record call {
    is_error = true;
    output = std.quote (refusal_text std call.tool_name);
  }

  abbrev kept_or_refused : ContentBlock → Option ContentBlock → ContentBlock
  kept_or_refused call (some kept) = kept
  kept_or_refused call none = refuse call

  unfoldable pub reconcile_refused_calls : List ContentBlock → List ContentBlock → List ContentBlock
  reconcile_refused_calls [] accepted = []
  reconcile_refused_calls (call ∷ original) accepted =
      kept_or_refused call (by_id call.tool_call_id accepted)
      ∷ reconcile_refused_calls original accepted

  unfoldable pub error_tool_result : ToolInvocation → String → ToolResult
  error_tool_result invocation text = record {
    tool_call_id = invocation.tool_call_id;
    tool_name = invocation.tool_name;
    output = error_output std text;
    is_error = true;
    error = text;
  }

  -- `if text, err := Unquote(Output); err == nil && text != "" { reason = text }`
  abbrev reason : ToolInvocation → Option String → String
  reason invocation none = refusal_text std invocation.tool_name
  reason invocation (some text) =
      if is_empty text then refusal_text std invocation.tool_name else text

  unfoldable pub refused_tool_result : ToolInvocation → ContentBlock → ToolResult
  refused_tool_result invocation refusal =
      let result = error_tool_result invocation (reason invocation (std.unquote refusal.output)) in
      if is_empty refusal.output then result else record result { output = refusal.output }

  -- What executeTool makes of the tool's own result.
  unfoldable pub settled : ToolInvocation → ToolResult → ToolResult
  settled invocation r =
      let output : String = if is_empty r.output then "null" else r.output in
      if std.json_valid output
      then record r {
        output = output;
        tool_call_id = invocation.tool_call_id;
        tool_name = invocation.tool_name;
      }
      else error_tool_result invocation "tool returned invalid JSON output"

  unfoldable pub tool_outcome : ToolInvocation → ToolOutcome → ToolResult
  tool_outcome invocation (tool_returned r) = settled invocation r
  tool_outcome invocation (tool_error text) = error_tool_result invocation text
  tool_outcome invocation (tool_panicked v) = error_tool_result invocation (
      str_append "tool " (str_append (std.quote invocation.tool_name) (str_append " panicked: " v)))

-- An invocation, beside the refusal of its call if there is one: `invocations[i]`, `refusals[i]`.
abbrev pub Job : Type 0
Job = ToolInvocation × Option ContentBlock

abbrev pub zero_result : ToolResult
zero_result = record {
  tool_call_id = "";
  tool_name = "";
  output = "";
  is_error = false;
  error = "";
}

module _ {W : Type 0} (a : Agent W) where
  unfoldable pub execute_tool : ToolInvocation → W → W × ToolResult
  execute_tool invocation w =
      let (w', outcome) = a.execute invocation.tool_name invocation.input w in
      if a.registered invocation.tool_name then (w', tool_outcome a.std invocation outcome) else (
        w,
        error_tool_result a.std invocation (
            str_append "tool "
              (str_append (a.std.quote invocation.tool_name) " is not registered")),
      )

  -- One goroutine of executeToolsConcurrently.
  unfoldable pub run_job : Job → W → W × ToolResult
  run_job (invocation, some refusal) w = (w, refused_tool_result a.std invocation refusal)
  run_job (invocation, none) w = execute_tool invocation w

  -- The goroutines in the order in which they run, each writing its own slot.
  unfoldable pub run_slots : List ℕ → List Job → List ToolResult → W → W × List ToolResult
  run_slots [] jobs results w = (w, results)
  run_slots (i ∷ order) jobs results w = elim (get_elem? jobs i) [
    | none ↦ run_slots order jobs results w
    | some job ↦ let (w', r) = run_job job w in run_slots order jobs (set results i r) w'
  ]

  unfoldable pub execute_tools_concurrently : List Job → W → W × List ToolResult
  execute_tools_concurrently jobs w =
      let (w', order) = a.schedule (length jobs) w in
      run_slots order jobs (map (λ _. zero_result) jobs) w'

  abbrev pub invocation_of : ContentBlock → ToolInvocation
  invocation_of call = record {
    tool_call_id = call.tool_call_id;
    tool_name = call.tool_name;
    input = call.input;
  }

  -- `if len(invocation.Input) == 0 { invocation.Input = {} }`
  abbrev pub with_arguments : ToolInvocation → ToolInvocation
  with_arguments i = if is_empty i.input then record i { input = "{}" } else i

  abbrev as_invocation : HookData → Result ToolInvocation
  as_invocation (invocation_data i) = ok (with_arguments i)
  as_invocation _ = err (hook_returned HookType.pre_tool_exec)

  -- The body of the first loop of runTools after a call of the hooks.
  abbrev pub accept_invocation : HookData → Option Error → Result ToolInvocation
  accept_invocation value (some e) = err e
  accept_invocation value none = elim (as_invocation value) [
    | err e ↦ err e
    | ok i ↦ elim (validate_tool_invocation a.std i) [ some e ↦ err e | none ↦ ok i ]
  ]

  abbrev add_job : Job → Session W × Result (List Job) → Session W × Result (List Job)
  add_job job (s, ok jobs) = (s, ok (job ∷ jobs))
  add_job job (s, err e) = (s, err e)

  -- The first loop of runTools.
  unfoldable pub prepare : List ContentBlock → Session W → Session W × Result (List Job)
  prepare [] s = (s, ok [])
  prepare (call ∷ calls) s = elim call.is_error [
    | true ↦ add_job (invocation_of call, some call) (prepare calls s)
    | false ↦
        let (s', value, failed) =
          trigger a.who HookType.pre_tool_exec (invocation_data (invocation_of call)) s in
        elim (accept_invocation value failed) [
          | err e ↦ (s', err e)
          | ok i ↦ add_job (i, none) (prepare calls s')
        ]
  ]

  abbrev as_result_data : HookData → Option ToolResult
  as_result_data (result_data r) = some r
  as_result_data _ = none

  abbrev cons_result :
      ToolResult
      → Session W × List ToolResult × Option Error
      → Session W × List ToolResult × Option Error
  cons_result r (s, rs, e) = (s, r ∷ rs, e)

  -- The last loop of runTools: the hook of each result.
  unfoldable pub settle : List ToolResult → Session W → Session W × List ToolResult × Option Error
  settle [] s = (s, [], none)
  settle (r ∷ rs) s =
      let (s', value, failed) = trigger a.who HookType.tool_result (result_data r) s in
      elim failed [
        | some e ↦ (s', r ∷ rs, some e)
        | none ↦ elim (as_result_data value) [
          | none ↦ (s', r ∷ rs, some (hook_returned HookType.tool_result))
          | some r' ↦ elim (validate_tool_result a.std r') [
            | some e ↦ (s', r' ∷ rs, some e)
            | none ↦ cons_result r' (settle rs s')
          ]
        ]
      ]

  abbrev as_results_data : HookData → Option (List ToolResult)
  as_results_data (results_data rs) = some rs
  as_results_data _ = none

  -- runTools after the tools ran: post_tool_exec, the count, and the hook of each result.
  unfoldable pub finish_tools :
      ℕ → List ToolResult → Session W → Session W × List ToolResult × Option Error
  finish_tools count results s =
      let (s', value, failed) = trigger a.who HookType.post_tool_exec (results_data results) s in
      elim failed [
        | some e ↦ (s', results, some e)
        | none ↦ elim (as_results_data value) [
          | none ↦ (s', [], some (hook_returned HookType.post_tool_exec))
          | some rs ↦
              if length rs == count
              then settle rs s'
              else (s', rs, some (result_count (length rs) count))
        ]
      ]

  unfoldable pub run_tools :
      List ContentBlock → Session W → Session W × List ToolResult × Option Error
  run_tools calls s =
      let (s', prepared) = prepare calls s in
      elim prepared [
        | err e ↦ (s', [], some e)
        | ok jobs ↦
            let (w, results) = execute_tools_concurrently jobs s'.world in
            finish_tools (length calls) results (record s' { world = w })
      ]
