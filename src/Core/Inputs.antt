-- ===== src/Core/Inputs.antt =====
-- internal/core/agent.go: validateInput; internal/core/loop.go: the content of newUserMessage.
use marx_agent.Prelude.{String, Option, none, some, ◌||◌, not, is_empty, str_eq, if◌then◌else◌}
use marx_agent.Core.Message.{
  ContentType, ContentBlock, zero_block, Input, InputType, Value, Fields, end, field, str,
}
use marx_agent.Core.Error.{
  Error, text_empty, image_empty, image_source_kind, media_format_kind, structured_data,
  unsupported_input, ◌or_else◌,
}
use marx_agent.Core.Validate.{Std, validate_json_compatible}

-- `metadata[key]`
abbrev pub get_field : String → Fields → Option Value
get_field key end = none
get_field key (field k v fs) = if str_eq k key then some v else get_field key fs

-- `if v, exists := metadata[key]; exists { if _, ok := v.(string); !ok { error } }`
abbrev not_string : Option Value → Error → Option Error
not_string none e = none
not_string (some (str s)) e = none
not_string (some _) e = some e

-- `text, _ = v.(string)`
abbrev string_or_empty : Option Value → String
string_or_empty (some (str s)) = s
string_or_empty _ = ""

abbrev input_error : Std → InputType → Input → Option Error
input_error std InputType.text i = if is_empty i.content then some text_empty else none
input_error std InputType.image i =
    if is_empty i.content
    then some image_empty
    else not_string (get_field "image_source" i.metadata) image_source_kind
      or_else not_string (get_field "media_format" i.metadata) media_format_kind
input_error std InputType.structured i =
    if is_empty i.payload || not (std.json_valid i.payload) then some structured_data else none
input_error std (InputType.other_input t) i = some (unsupported_input (InputType.other_input t))

unfoldable pub validate_input : Std → Input → Option Error
validate_input std i = input_error std i.type i or_else validate_json_compatible std i.metadata

abbrev pub user_block : InputType → Input → ContentBlock
user_block InputType.text i = record (zero_block ContentType.text) { text = i.content }
user_block InputType.image i = record (zero_block ContentType.image) {
  image_data = i.content;
  image_source = string_or_empty (get_field "image_source" i.metadata);
  media_format = string_or_empty (get_field "media_format" i.metadata);
}
user_block InputType.structured i = record (zero_block ContentType.structured) {
  text = i.content;
  input = i.payload;
}
user_block (InputType.other_input t) i = zero_block (ContentType.other_type t)
