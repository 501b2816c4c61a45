-- ===== src/Core/Error.antt =====
-- The errors of internal/core: the sentinels of agent.go and hooks.go, and one constructor for each
-- message that a function formats, with the values that stand in it.
use marx_agent.Prelude.{ℕ, String, Option, none, some}
use marx_agent.Prelude.Int.{ℤ}
use marx_agent.Core.Message.{ContentType, InputType, StreamType}

pub data HookType : Type 0 where
  pre_loop post_loop pre_model_call post_model_call tool_call_received pre_tool_exec : HookType
  post_tool_exec tool_result pre_compact post_compact context_inject sub_agent_spawn : HookType
  sub_agent_done on_event : HookType
  other_hook : String → HookType

pub data Error : Type 0 where
  nil_provider concurrent_run nil_context max_iterations : Error
  invalid_configuration : Error → Error
  invalid_hook_priority nil_hook invalid_hook_type hook_not_registered : Error
  -- from outside: the context, a hook, a provider, a tool, the random source, json.Marshal
  external : String → Error
  context_done : String → Error
  panicked : String → Error
  hook_failed : HookType → ℤ → Error → Error
  hook_returned : HookType → Error
  pre_loop_input : Error → Error
  provider_failed : Error → Error
  nil_stream : Error
  unspecified_stream_error : Error
  stream_error : String → Error
  unsupported_chunk : StreamType → Error
  no_tool_call : Error
  invalid_tool_call : Error → Error
  received_invalid_call : Error → Error
  call_type : ℕ → ContentType → Error
  call_content : ℕ → Error → Error
  duplicate_call_id : String → Error
  structured_input image_empty call_id_or_name input_not_object result_call_id : Error
  output_not_json thinking_empty encrypted_empty : Error
  unsupported_content : ContentType → Error
  result_id_or_name result_empty result_not_json : Error
  result_count : ℕ → ℕ → Error
  text_empty image_source_kind media_format_kind structured_data : Error
  unsupported_input : InputType → Error
  not_serializable key_not_string : Error
  unsupported_kind : String → Error
  message_id unsupported_role created_at_zero content_empty : Error
  joined : Error → Error → Error

-- `(A, error)` where the value is used only if the error is nil.
pub data Result {ℓ} (A : Type ℓ) : Type ℓ where
  ok : A → Result A
  err : Error → Result A

infixl 5 ◌>>=◌
abbrev pub ◌>>=◌ {ℓ κ} : {A : Type ℓ} {B : Type κ} → Result A → (A → Result B) → Result B
ok a >>= f = f a
err e >>= f = err e

-- `if err := first; err != nil { return err }; return second`
infixl 6 ◌or_else◌
abbrev pub ◌or_else◌ : Option Error → Option Error → Option Error
some e or_else k = some e
none or_else k = k
