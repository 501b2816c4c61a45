-- ===== src/Core/Tests/Assembling.antt =====
-- internal/core/agent.go: a configuration with nothing but a model.
use marx_agent.Prelude.{◌≡◌, refl, String, true, none, some, [], ◌∷◌}
use marx_agent.Prelude.Int.{pos, negsuc}
use marx_agent.Core.Message.{end, ToolSpec}
use marx_agent.Core.Assembly.{
  AgentConfig, defaulted, config_error, normalize_config, normalized, rejected, messages_error,
  negative_tokens, inspected, inspect_from, inspect_tools, has_spec, insert_spec, refused_tools,
  duplicate_tool,
}
use marx_agent.Core.Assembly.Idempotence.{normalize_config-normalized}
use marx_agent.Core.Tests.{demo_std, program}

abbrev bare : AgentConfig
bare = record {
  agent_id = "";
  parent_id = "";
  session_id = "";
  model = "model";
  system_hint = "";
  max_iterations = pos 0;
  max_tokens = pos 0;
  is_finite = true;
  event_buffer = pos 0;
  initial_messages = [];
  variables = end;
  metadata = end;
}

abbrev filled : AgentConfig
filled = record bare {
  agent_id = "id";
  session_id = "id";
  max_iterations = pos 16;
  event_buffer = pos 64;
}

bare_normalized : normalize_config demo_std (some "id") bare ≡ normalized filled
unfolding program normalize_config defaulted config_error messages_error
bare_normalized = refl

negative_refused :
    normalize_config demo_std (some "id") (record bare { max_tokens = negsuc 0 })
    ≡ rejected negative_tokens
unfolding program normalize_config defaulted config_error messages_error
negative_refused = refl

abbrev spec : String → ToolSpec
spec name = record { name = name; description = "does"; parameters = "{}" }

doubled :
    inspect_tools demo_std (inspected (spec "a") ∷ inspected (spec "a") ∷ [])
    ≡ refused_tools (duplicate_tool "a")
unfolding program inspect_tools inspect_from has_spec insert_spec
doubled = refl

normalize_config-normalized_example : normalize_config demo_std none filled ≡ normalized filled
normalize_config-normalized_example =
    normalize_config-normalized demo_std (some "id") none bare filled bare_normalized
