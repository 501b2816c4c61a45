-- ===== src/Core/Accumulator.antt =====
-- internal/core/loop.go: messageAccumulator, which folds a provider's stream into one message.
pub mod Text
use marx_agent.Prelude.{
  ℕ, String, Bool, true, false, ◌&&◌, Option, none, some, List, [], ◌∷◌, ◌++◌, ◌==◌, is_empty,
  str_eq, str_append, if◌then◌else◌,
}
use marx_agent.Core.Message.{
  assistant, ContentType, ContentBlock, zero_block, Message, StreamType, StreamChunk, str, end,
  field,
}
use marx_agent.Core.Error.{
  Error, no_tool_call, invalid_tool_call, unspecified_stream_error, stream_error, unsupported_chunk,
}
use marx_agent.Core.Validate.{Std, is_tool_use, validate_content_block, validate_tool_calls}

pub record Accumulator : Type 0 where
  pub content : List ContentBlock
  pub response_id : String

abbrev pub empty_accumulator : Accumulator
empty_accumulator = record { content = []; response_id = "" }

abbrev pub type_code : ContentType → ℕ
type_code ContentType.text = 0
type_code ContentType.image = 1
type_code ContentType.tool_use = 2
type_code ContentType.tool_result = 3
type_code ContentType.thinking = 4
type_code ContentType.reasoning = 5
type_code ContentType.structured = 6
type_code (ContentType.other_type s) = 7

abbrev type_text : ContentType → String
type_text (ContentType.other_type s) = s
type_text _ = ""

-- `last.Type == block.Type`
abbrev pub type_eq : ContentType → ContentType → Bool
type_eq a b = type_code a == type_code b && str_eq (type_text a) (type_text b)

-- The inner switch of appendOrMerge.
abbrev pub merge : ContentType → ContentBlock → ContentBlock → ContentBlock
merge ContentType.text last block = record last { text = str_append last.text block.text }
merge ContentType.thinking last block = record last {
  thinking = str_append last.thinking block.thinking;
  thinking_sig = if is_empty block.thinking_sig then last.thinking_sig else block.thinking_sig;
}
merge ContentType.reasoning last block = record last { encrypted_content = block.encrypted_content }
merge _ last block = last

unfoldable pub append_or_merge : ContentBlock → List ContentBlock → List ContentBlock
append_or_merge block [] = block ∷ []
append_or_merge block (last ∷ []) =
    if type_eq last.type block.type then merge block.type last block ∷ [] else last ∷ block ∷ []
append_or_merge block (x ∷ y ∷ ys) = x ∷ append_or_merge block (y ∷ ys)

unfoldable pub tool_calls : List ContentBlock → List ContentBlock
tool_calls [] = []
tool_calls (b ∷ bs) = if is_tool_use b.type then b ∷ tool_calls bs else tool_calls bs

-- `if chunk.ResponseID != ""` and `if chunk.EncryptedContent != ""`.
unfoldable pub add_credentials : StreamChunk Error → Accumulator → Accumulator
unfolding append_or_merge
add_credentials chunk a = record {
  response_id = if is_empty chunk.response_id then a.response_id else chunk.response_id;
  content =
      if is_empty chunk.encrypted_content
      then a.content
      else append_or_merge
          (record (zero_block ContentType.reasoning) {
            encrypted_content = chunk.encrypted_content;
          })
          a.content;
}

-- `if len(call.Input) == 0 { call.Input = {} }`
abbrev pub with_input : ContentBlock → ContentBlock
with_input call = if is_empty call.input then record call { input = "{}" } else call

module _ (std : Std) where
  -- `return validateToolCalls(a.toolCalls())`
  abbrev pub checked : Accumulator → Accumulator × Option Error
  checked a = (a, validate_tool_calls std (tool_calls a.content))

  -- `case StreamToolCall:`, after its test of the block.
  abbrev pub keep_call : Option Error → ContentBlock → Accumulator → Accumulator × Option Error
  keep_call (some e) c a = (a, some (invalid_tool_call e))
  keep_call none c a = checked (record a { content = a.content ++ c ∷ [] })

  unfoldable pub add_call : Option ContentBlock → Accumulator → Accumulator × Option Error
  add_call none a = (a, some no_tool_call)
  add_call (some c) a = keep_call (validate_content_block std (with_input c)) (with_input c) a

  -- The switch of `add` on the chunk's type.
  unfoldable pub add_body :
      StreamType → StreamChunk Error → Accumulator → Accumulator × Option Error
  add_body StreamType.text chunk a = checked (record a {
    content =
        append_or_merge (record (zero_block ContentType.text) { text = chunk.text }) a.content;
  })
  add_body StreamType.thinking chunk a = checked (record a {
    content =
        append_or_merge
          (record (zero_block ContentType.thinking) {
            thinking = chunk.text;
            thinking_sig = chunk.thinking_sig;
          })
          a.content;
  })
  add_body StreamType.tool_call chunk a = add_call chunk.tool_call a
  add_body StreamType.done chunk a = (a, none)
  add_body StreamType.error chunk a = (
    a,
    if is_empty chunk.text then some unspecified_stream_error else some (stream_error chunk.text),
  )
  add_body (StreamType.other_stream t) chunk a =
      (a, some (unsupported_chunk (StreamType.other_stream t)))

  -- `if chunk.Err != nil`
  unfoldable pub add_unless :
      Option Error → StreamChunk Error → Accumulator → Accumulator × Option Error
  add_unless (some e) chunk a = (a, some e)
  add_unless none chunk a = add_body chunk.type chunk (add_credentials chunk a)

  unfoldable pub add : StreamChunk Error → Accumulator → Accumulator × Option Error
  add chunk a = add_unless chunk.err chunk a

-- The time of the clock is an argument.
unfoldable pub message : Accumulator → String → Bool → ℕ → Option Message
message a id incomplete time = elim a.content [
  | [] ↦
      if is_empty a.response_id
      then none
      else some (record {
        id = id;
        role = assistant;
        content = [];
        created_at = time;
        metadata = field "response_id" (str a.response_id) end;
        incomplete = incomplete;
      })
  | b ∷ bs ↦ some (record {
    id = id;
    role = assistant;
    content = a.content;
    created_at = time;
    metadata = if is_empty a.response_id then end else field "response_id" (str a.response_id) end;
    incomplete = incomplete;
  })
]
