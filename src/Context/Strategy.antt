-- ===== src/Context/Strategy.antt =====
-- internal/engine/context/strategy.go: SummarizeStrategy and TruncateStrategy.
use marx_agent.Prelude.{
  ℕ, ◌*◌, Bool, true, ◌&&◌, String, Option, none, some, List, [], ◌∷◌, ◌==◌, ltb, drop, take,
  is_empty, str_append, if◌then◌else◌,
}
use marx_agent.Core.Message.{
  ContentType, ContentBlock, zero_block, Message, Role, user, field, end, boolean, number,
}
use marx_agent.Core.Emit.{role_text}
use marx_agent.Context.Estimate.{truncate_runes, normalize_newlines}

-- The Estimator interface, as the package calls it: EstimateText and Estimate.
pub record Estimator : Type 0 where
  pub of_text : String → ℕ
  pub of_messages : List Message → ℕ

-- The plan without its estimator, which every call is given beside it.
pub record CompactPlan : Type 0 where
  pub cut : ℕ
  pub keep_from : ℕ
  pub key_results : List ℕ
  pub target_tokens : ℕ
  pub budget_tokens : ℕ
  pub keep_recent_turns : ℕ

pub data StrategyError : Type 0 where
  no_summarizer : StrategyError
  summarize_failed : String → StrategyError
  strategy_failed : String → StrategyError

-- What a call of Compact returns.
pub data Compacted : Type 0 where
  folded : List Message → Compacted
  failed : StrategyError → Compacted

pub record Strategy : Type 0 where
  pub name : String
  pub compact : CompactPlan → List Message → Compacted

-- The Summarizer interface: the text, or the error's text.
pub data Summary : Type 0 where
  summary_of : String → Summary
  no_summary : String → Summary

abbrev pub default_summary_header : String
default_summary_header =
    "<conversation_summary>\nEarlier turns of this conversation were compacted to stay inside the context window. Treat the following as established history, not as a new request.\n"

abbrev labelled : String → String → String → String
labelled label name body =
    str_append label (str_append name (str_append "): " (str_append body "\n")))

abbrev line_of : Role → ContentType → ContentBlock → String
line_of r ContentType.text b = str_append (role_text r) (str_append ": " (str_append b.text "\n"))
line_of r ContentType.tool_result b =
    labelled "tool_result(" b.tool_name (normalize_newlines b.output)
line_of r ContentType.tool_use b = labelled "tool_use(" b.tool_name b.input
line_of r _ b = ""

unfoldable pub region_blocks : Role → List ContentBlock → String
region_blocks r [] = ""
region_blocks r (b ∷ bs) = str_append (line_of r b.type b) (region_blocks r bs)

-- The text that SummarizeRegion builds.
unfoldable pub region_text : List Message → String
region_text [] = ""
region_text (m ∷ ms) = str_append (region_blocks m.role m.content) (region_text ms)

-- The end of SummarizeRegion: a summary over its target is cut.
unfoldable pub bounded_summary : Estimator → CompactPlan → String → String
bounded_summary e plan text =
    if ltb 0 plan.target_tokens && ltb plan.target_tokens (e.of_text text)
    then truncate_runes text (plan.target_tokens * 4)
    else text

-- The message that stands for the folded region; `itoa` writes a number.
abbrev pub summary_message : (ℕ → String) → String → CompactPlan → String → Message
summary_message itoa header plan text = record {
  id = "";
  role = user;
  content =
      record (zero_block ContentType.text) {
        text =
            str_append (if is_empty header then default_summary_header else header)
              (str_append text "\n</conversation_summary>");
      }
      ∷ [];
  created_at = 0;
  metadata =
      field "marxagent.summary" (boolean true) (field "compacted" (number (itoa plan.cut)) end);
  incomplete = Bool.false;
}

module _ (itoa : ℕ → String) (e : Estimator) where
  abbrev pub summarized : String → CompactPlan → List Message → Summary → Compacted
  summarized header plan messages (no_summary x) = failed (summarize_failed x)
  summarized header plan messages (summary_of text) =
      folded
        (summary_message itoa header plan (bounded_summary e plan text) ∷ drop plan.cut messages)

  -- SummarizeStrategy.Compact.
  unfoldable pub summarize_compact :
      Option (String → Summary) → String → CompactPlan → List Message → Compacted
  summarize_compact none header plan messages = failed no_summarizer
  summarize_compact (some summarize) header plan messages =
      if plan.cut == 0
      then folded messages
      else summarized header plan messages (summarize (region_text (take plan.cut messages)))

-- TruncateStrategy.Compact: `drop` past the end is the empty list, as the source's bound makes it.
unfoldable pub truncate_compact : CompactPlan → List Message → Compacted
truncate_compact plan messages = folded (drop plan.cut messages)

abbrev pub truncate_strategy : Strategy
truncate_strategy = record { name = "truncate"; compact = truncate_compact }
