-- ===== src/Core/Validate.antt =====
-- internal/core/agent.go and loop.go: the checks on blocks, calls, invocations, results, values.
-- `Std` stands for the functions of Go's standard library that the core calls on texts.
use text.Mathlib.Text.{starts_with}
use marx_agent.Prelude.{
  ℕ, suc, String, Bool, true, false, ◌&&◌, ◌||◌, not, Option, none, some, List, [], ◌∷◌, is_empty,
  str_eq, if◌then◌else◌,
}
use marx_agent.Core.Message.{
  ContentType, ContentBlock, zero_block, Value, Values, Fields, nil, cons, end, field,
  ToolInvocation, ToolResult, null, boolean, number, str, slice, keyed, mapping, other_kind,
}
use marx_agent.Core.Error.{
  Error, structured_input, image_empty, call_id_or_name, input_not_object, result_call_id,
  output_not_json, thinking_empty, encrypted_empty, unsupported_content, call_type, call_content,
  duplicate_call_id, result_id_or_name, result_empty, result_not_json, not_serializable,
  key_not_string, unsupported_kind, ◌or_else◌,
}

-- json.Valid, json.Marshal (does it succeed), strings.TrimSpace, strconv.Quote (also `%q`) and
-- strconv.Unquote.
pub record Std : Type 0 where
  pub json_valid : String → Bool
  pub marshals : Fields → Bool
  pub trim_space : String → String
  pub quote : String → String
  pub unquote : String → Option String

-- The kinds that validateJSONReflectValue accepts, at any depth.
unfoldable mutual
  pub value_kind_error : Value → Option Error
  value_kind_error null = none
  value_kind_error (boolean b) = none
  value_kind_error (number n) = none
  value_kind_error (str s) = none
  value_kind_error (slice vs) = values_kind_error vs
  value_kind_error (keyed fs) = fields_kind_error fs
  value_kind_error mapping = some key_not_string
  value_kind_error (other_kind k) = some (unsupported_kind k)

  pub values_kind_error : Values → Option Error
  values_kind_error nil = none
  values_kind_error (cons v vs) = value_kind_error v or_else values_kind_error vs

  pub fields_kind_error : Fields → Option Error
  fields_kind_error end = none
  fields_kind_error (field k v fs) = value_kind_error v or_else fields_kind_error fs

abbrev pub is_tool_use : ContentType → Bool
is_tool_use ContentType.tool_use = true
is_tool_use _ = false

-- The keys of `seen`, newest first.
unfoldable pub contains_id : String → List String → Bool
contains_id id [] = false
contains_id id (s ∷ seen) = if str_eq s id then true else contains_id id seen

abbrev pub wrap_call : ℕ → Option Error → Option Error
wrap_call index none = none
wrap_call index (some e) = some (call_content index e)

module _ (std : Std) where
  unfoldable pub validate_json_compatible : Fields → Option Error
  validate_json_compatible metadata =
      if std.marshals metadata then fields_kind_error metadata else some not_serializable

  unfoldable pub is_json_object : String → Bool
  is_json_object raw =
      if is_empty raw || not (std.json_valid raw)
      then false
      else starts_with (std.trim_space raw) "{"

  -- One clause for each case of the switch; the block is passed beside its type.
  unfoldable pub check_block : ContentType → ContentBlock → Option Error
  check_block ContentType.text block = none
  check_block ContentType.structured block =
      if is_empty block.input || not (std.json_valid block.input)
      then some structured_input
      else none
  check_block ContentType.image block = if is_empty block.image_data then some image_empty else none
  check_block ContentType.tool_use block =
      if is_empty block.tool_call_id || is_empty block.tool_name
      then some call_id_or_name
      else if is_empty block.input
      then none
      else if is_json_object block.input
      then none
      else some input_not_object
  check_block ContentType.tool_result block =
      if is_empty block.tool_call_id
      then some result_call_id
      else if not (is_empty block.output) && not (std.json_valid block.output)
      then some output_not_json
      else none
  check_block ContentType.thinking block =
      if is_empty block.thinking && is_empty block.thinking_sig then some thinking_empty else none
  check_block ContentType.reasoning block =
      if is_empty block.encrypted_content then some encrypted_empty else none
  check_block (ContentType.other_type t) block =
      some (unsupported_content (ContentType.other_type t))

  unfoldable pub validate_content_block : ContentBlock → Option Error
  unfolding check_block
  validate_content_block block = check_block block.type block

  -- The loop of validateToolCalls from `index` on.
  unfoldable pub validate_calls_from : ℕ → List String → List ContentBlock → Option Error
  validate_calls_from index seen [] = none
  validate_calls_from index seen (call ∷ calls) =
      let rest = validate_calls_from (suc index) (call.tool_call_id ∷ seen) calls in
      if not (is_tool_use call.type)
      then some (call_type index call.type)
      else wrap_call index (validate_content_block call)
        or_else (if contains_id call.tool_call_id seen
            then some (duplicate_call_id call.tool_call_id)
            else rest)

  unfoldable pub validate_tool_calls : List ContentBlock → Option Error
  unfolding validate_calls_from
  validate_tool_calls calls = validate_calls_from 0 [] calls

  unfoldable pub validate_tool_invocation : ToolInvocation → Option Error
  unfolding validate_content_block
  validate_tool_invocation invocation =
      validate_content_block (record (zero_block ContentType.tool_use) {
        tool_call_id = invocation.tool_call_id;
        tool_name = invocation.tool_name;
        input = invocation.input;
      })

  unfoldable pub validate_tool_result : ToolResult → Option Error
  validate_tool_result result =
      if is_empty result.tool_call_id || is_empty result.tool_name
      then some result_id_or_name
      else if is_empty result.output
      then some result_empty
      else if not (std.json_valid result.output)
      then some result_not_json
      else none
