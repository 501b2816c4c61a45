-- ===== src/Core/Assembly.antt =====
-- internal/core/agent.go: what NewAgent checks and fills in: normalizeConfig, inspectTools and
-- validateMessage.
pub mod Idempotence
use marx_agent.Prelude.{
  ℕ, suc, Bool, true, false, ◌&&◌, ◌||◌, not, String, Option, none, some, List, [], ◌∷◌, ◌==◌,
  is_empty, is_blank, str_eq, str_less, if◌then◌else◌,
}
use marx_agent.Prelude.Int.{ℤ, pos, negsuc, ltb_ℤ, eq_ℤ}
use marx_agent.Core.Message.{Role, other_role, ContentBlock, Message, Fields, ToolSpec}
use marx_agent.Core.Error.{
  Error, ◌or_else◌, message_id, unsupported_role, created_at_zero, content_empty,
}
use marx_agent.Core.Validate.{Std, validate_json_compatible, validate_content_block, is_json_object}

-- Config without the tools, which inspectTools is given beside it; `is_finite` tells of Temperature
-- that it is neither NaN nor an infinity.
pub record AgentConfig : Type 0 where
  pub agent_id : String
  pub parent_id : String
  pub session_id : String
  pub model : String
  pub system_hint : String
  pub max_iterations : ℤ
  pub max_tokens : ℤ
  pub is_finite : Bool
  pub event_buffer : ℤ
  pub initial_messages : List Message
  pub variables : Fields
  pub metadata : Fields

pub data ConfigError : Type 0 where
  iterations_not_positive : ConfigError
  event_buffer_range : ConfigError
  negative_tokens : ConfigError
  temperature_not_finite : ConfigError
  empty_model : ConfigError
  no_agent_id : ConfigError
  blank_agent_id : ConfigError
  own_parent : ConfigError
  bad_variables : Error → ConfigError
  bad_metadata : Error → ConfigError
  bad_message : ℕ → Error → ConfigError
  nil_tool : ℕ → ConfigError
  tool_panicked : ℕ → ConfigError
  tool_name_empty : ℕ → ConfigError
  tool_description_empty : String → ConfigError
  tool_parameters : String → ConfigError
  duplicate_tool : String → ConfigError

abbrev pub valid_role : Role → Bool
valid_role (other_role r) = false
valid_role _ = true

abbrev pub fail_if : {E : Type 0} → Bool → E → Option E → Option E
fail_if true e rest = some e
fail_if false e rest = rest

abbrev pub wrap_config :
    (Error → ConfigError) → Option Error → Option ConfigError → Option ConfigError
wrap_config f none rest = rest
wrap_config f (some e) rest = some (f e)

abbrev is_nil : List ContentBlock → Bool
is_nil [] = true
is_nil (b ∷ bs) = false

abbrev pub default_to : ℤ → ℤ → ℤ
default_to d n = if eq_ℤ n (pos 0) then d else n

abbrev pub filled_id : Option String → String → String
filled_id none id = id
filled_id (some uuid) id = if is_empty id then uuid else id

abbrev pub lacks_id : Option String → String → Bool
lacks_id none id = is_empty id
lacks_id (some uuid) id = false

-- The values that normalizeConfig fills in; `uuid` is what generateUUID gives, none its error.
unfoldable pub defaulted : Option String → AgentConfig → AgentConfig
defaulted uuid c =
    let id : String = filled_id uuid c.agent_id in
    record c {
      max_iterations = default_to (pos 16) c.max_iterations;
      event_buffer = default_to (pos 64) c.event_buffer;
      agent_id = id;
      session_id = if is_empty c.session_id then id else c.session_id;
    }

pub data Normalized : Type 0 where
  normalized : AgentConfig → Normalized
  rejected : ConfigError → Normalized

-- What a tool answers to inspectTool.
pub data Inspected : Type 0 where
  inspected : ToolSpec → Inspected
  is_nil_tool : Inspected
  inspection_panicked : Inspected

pub data Tools : Type 0 where
  tools : List ToolSpec → Tools
  refused_tools : ConfigError → Tools

-- The first of the tests that hits gives the error.
abbrev pub first_failure : List (Bool × ConfigError) → Option ConfigError → Option ConfigError
first_failure [] rest = rest
first_failure ((hit, e) ∷ checks) rest = fail_if hit e (first_failure checks rest)

abbrev pub config_checks : Bool → AgentConfig → List (Bool × ConfigError)
config_checks no_uuid c =
    (ltb_ℤ c.max_iterations (pos 1), iterations_not_positive)
    ∷ (ltb_ℤ c.event_buffer (pos 1) || ltb_ℤ (pos 4096) c.event_buffer, event_buffer_range)
    ∷ (ltb_ℤ c.max_tokens (pos 0), negative_tokens)
    ∷ (not c.is_finite, temperature_not_finite)
    ∷ (is_blank c.model, empty_model)
    ∷ (no_uuid, no_agent_id)
    ∷ (is_blank c.agent_id, blank_agent_id)
    ∷ (str_eq c.parent_id c.agent_id, own_parent)
    ∷ []

module _ (std : Std) where
  unfoldable pub blocks_error : List ContentBlock → Option Error
  blocks_error [] = none
  blocks_error (b ∷ bs) = validate_content_block std b or_else blocks_error bs

  unfoldable pub validate_message : Message → Option Error
  validate_message m = fail_if (is_blank m.id) message_id (
      fail_if (not (valid_role m.role)) unsupported_role (
        fail_if (m.created_at == 0) created_at_zero (
          fail_if (is_nil m.content) content_empty
            (validate_json_compatible std m.metadata or_else blocks_error m.content))))

  unfoldable pub messages_error : ℕ → List Message → Option ConfigError
  messages_error i [] = none
  messages_error i (m ∷ ms) =
      wrap_config (bad_message i) (validate_message m) (messages_error (suc i) ms)

  abbrev pub fields_error : AgentConfig → Option ConfigError
  fields_error c = wrap_config bad_variables (validate_json_compatible std c.variables) (
      wrap_config bad_metadata (validate_json_compatible std c.metadata)
        (messages_error 0 c.initial_messages))

  -- The checks of normalizeConfig in their order, on a configuration whose values are filled in;
  -- `no_uuid` tells that generateUUID was needed and failed.
  unfoldable pub config_error : Bool → AgentConfig → Option ConfigError
  config_error no_uuid c = first_failure (config_checks no_uuid c) (fields_error c)

  abbrev pub accepted_config : AgentConfig → Option ConfigError → Normalized
  accepted_config c none = normalized c
  accepted_config c (some e) = rejected e

  -- normalizeConfig.
  unfoldable pub normalize_config : Option String → AgentConfig → Normalized
  normalize_config uuid c =
      accepted_config (defaulted uuid c)
        (config_error (lacks_id uuid c.agent_id) (defaulted uuid c))

  unfoldable pub has_spec : String → List ToolSpec → Bool
  has_spec name [] = false
  has_spec name (s ∷ ss) = str_eq name s.name || has_spec name ss

  unfoldable pub insert_spec : ToolSpec → List ToolSpec → List ToolSpec
  insert_spec s [] = s ∷ []
  insert_spec s (t ∷ ts) =
      let rest = insert_spec s ts in if str_less t.name s.name then t ∷ rest else s ∷ t ∷ ts

  abbrev spec_error : ℕ → ToolSpec → List ToolSpec → Option ConfigError
  spec_error i s seen = fail_if (is_blank s.name) (tool_name_empty i) (
      fail_if (is_blank s.description) (tool_description_empty s.name) (
        fail_if (not (is_json_object std s.parameters)) (tool_parameters s.name)
          (fail_if (has_spec s.name seen) (duplicate_tool s.name) none)))

  abbrev kept_tools : Option ConfigError → Tools → Tools
  kept_tools none rest = rest
  kept_tools (some e) rest = refused_tools e

  -- The loop of inspectTools and the sorting of the specifications behind it; `seen` are those
  -- before the tool with index `i`, by name.
  unfoldable pub inspect_from : ℕ → List ToolSpec → List Inspected → Tools
  inspect_from i seen [] = tools seen
  inspect_from i seen (is_nil_tool ∷ rest) = refused_tools (nil_tool i)
  inspect_from i seen (inspection_panicked ∷ rest) = refused_tools (tool_panicked i)
  inspect_from i seen (inspected s ∷ rest) =
      kept_tools (spec_error i s seen) (inspect_from (suc i) (insert_spec s seen) rest)

  unfoldable pub inspect_tools : List Inspected → Tools
  inspect_tools ts = inspect_from 0 [] ts
