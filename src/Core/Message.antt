-- ===== src/Core/Message.antt =====
-- internal/core/message.go and tool.go: the provider-neutral records.
-- A `json.RawMessage` is its text; nil and the empty text are one value, as every test of the
-- source is `len(raw) == 0`. A `map[string]any` is a list of named values.
use marx_agent.Prelude.{ℕ, String, Bool, Option, List}

pub data Role : Type 0 where
  system user assistant tool : Role
  other_role : String → Role

pub data ContentType : Type 0 where
  text image tool_use tool_result thinking reasoning structured : ContentType
  other_type : String → ContentType

-- A dynamic value by its reflect kind. `keyed` is a map with string keys, `mapping` any other map,
-- `other_kind` a kind that JSON has no form for; a number is kept as its text.
mutual
  pub data Value : Type 0 where
    null : Value
    boolean : Bool → Value
    number : String → Value
    str : String → Value
    slice : Values → Value
    keyed : Fields → Value
    mapping : Value
    other_kind : String → Value

  pub data Values : Type 0 where
    nil : Values
    cons : Value → Values → Values

  pub data Fields : Type 0 where
    end : Fields
    field : String → Value → Fields → Fields

pub record ContentBlock : Type 0 where
  pub type : ContentType
  pub text : String
  pub image_data : String
  pub media_format : String
  pub image_source : String
  pub tool_call_id : String
  pub tool_name : String
  pub input : String
  pub output : String
  pub is_error : Bool
  pub thinking : String
  pub thinking_sig : String
  pub encrypted_content : String
  pub response_id : String

-- `ContentBlock{Type: t}`: every other field has its zero value.
abbrev pub zero_block : ContentType → ContentBlock
zero_block t = record {
  type = t;
  text = "";
  image_data = "";
  media_format = "";
  image_source = "";
  tool_call_id = "";
  tool_name = "";
  input = "";
  output = "";
  is_error = Bool.false;
  thinking = "";
  thinking_sig = "";
  encrypted_content = "";
  response_id = "";
}

-- `created_at` counts nanoseconds; 0 is the zero time.
pub record Message : Type 0 where
  pub id : String
  pub role : Role
  pub content : List ContentBlock
  pub created_at : ℕ
  pub metadata : Fields
  pub incomplete : Bool

pub data InputType : Type 0 where
  text image structured : InputType
  other_input : String → InputType

pub record Input : Type 0 where
  pub type : InputType
  pub content : String
  pub payload : String
  pub metadata : Fields

pub data StreamType : Type 0 where
  text tool_call thinking done error : StreamType
  other_stream : String → StreamType

pub record StreamChunk (E : Type 0) : Type 0 where
  pub type : StreamType
  pub text : String
  pub tool_call : Option ContentBlock
  pub thinking_sig : String
  pub encrypted_content : String
  pub response_id : String
  pub err : Option E

pub record ToolSpec : Type 0 where
  pub name : String
  pub description : String
  pub parameters : String

-- `max_tokens` and the sampling temperature do not reach any test of the loop.
pub record ChatRequest : Type 0 where
  pub model : String
  pub messages : List Message
  pub tools : List ToolSpec
  pub system_hint : String
  pub max_tokens : ℕ
  pub cache_key : String

pub record ToolInvocation : Type 0 where
  pub tool_call_id : String
  pub tool_name : String
  pub input : String

pub record ToolResult : Type 0 where
  pub tool_call_id : String
  pub tool_name : String
  pub output : String
  pub is_error : Bool
  pub error : String
