-- ===== src/Context/Tests/Compacting.antt =====
-- internal/engine/context/manager.go: a conversation of six messages of seven tokens each, over a
-- budget of 40 tokens.
use marx_agent.Prelude.{
  ◌≡◌, ◌<◌, ◌⊎◌, inl, inr, refl, String, true, false, All, is_empty, str_eq, str_eq_iff, none, List,
  [], ◌∷◌, length, drop, arith, ◌-◌,
}
use marx_agent.Core.Message.{ContentType, zero_block, Message, Role, user, assistant, tool, end}
use marx_agent.Context.Estimate.{
  Heuristic, estimate_text, estimate_messages, estimate_blocks, estimate_block, count_runes,
  ceil_div, is_cjk,
}
use marx_agent.Context.Strategy.{Estimator, truncate_strategy, truncate_compact}
use marx_agent.Context.Plan.{
  Config, plan, admit, admit_from, budget_tokens, fits_budget, keep_from, user_indexes, walk_back,
  key_indexes, is_key_result, has_failed_result, should_compact,
}
use marx_agent.Context.Plan.Turns.{Protects, keep_from-Protects}
use marx_agent.Context.Plan.Cut.{plan_roomy, plan_stops, leaves_room}
use marx_agent.Context.Plan.Admitted.{admit-reference, reference}
use marx_agent.Context.Manager.{
  Manager, compact, compact_none, compact_planned, compact_hard, after_strategy, force_truncate,
  forced_cut, first_fit, preserve_key_results, missing, is_kept, identity, remember, tell, finish,
}
use marx_agent.Context.Manager.Keys.{Has, Apart, folded_by, compact-Has}
use marx_agent.Context.Manager.Forced.{forced_cut_fits, compact-some, leaves_some}
use marx_agent.Context.Manager.Reports.{compact_each, compact_each-IsNewest, IsNewest}
use marx_agent.Context.Manager.Calls.{compact-Told, Told}

abbrev heuristic : Heuristic
heuristic = record { ascii_per_token = 4; cjk_per_token = 1 }

abbrev estimator : Estimator
estimator = record { of_text = estimate_text heuristic; of_messages = estimate_messages heuristic }

abbrev config : Config
config = record {
  scaled = 40;
  keep_recent_turns = 1;
  max_message_tokens = 7;
  keep_key_results = true;
  estimator = estimator;
  strategy = truncate_strategy;
  has_cache_invalidator = true;
  has_chain_invalidator = false;
}

abbrev manager : Manager
manager = record { config = config; last = none; history = []; cache_calls = []; chain_calls = [] }

abbrev said : String → Role → Message
said id r = record {
  id = id;
  role = r;
  content = record (zero_block ContentType.text) { text = "word" } ∷ [];
  created_at = 0;
  metadata = end;
  incomplete = false;
}

abbrev broken : String → Message
broken id = record (said id tool) {
  content = record (zero_block ContentType.tool_result) { output = "oops"; is_error = true } ∷ [];
}

abbrev talk : List Message
talk =
    said "1" user
    ∷ broken "2"
    ∷ said "3" assistant
    ∷ said "4" user
    ∷ said "5" assistant
    ∷ said "6" user
    ∷ []

-- Names what the runs below compute with.
unfoldable program : Unit {0}
unfolding estimate_messages estimate_blocks estimate_block estimate_text count_runes ceil_div is_cjk
    budget_tokens fits_budget should_compact keep_from user_indexes walk_back key_indexes
    is_key_result has_failed_result plan admit admit_from truncate_compact compact compact_none
    compact_planned compact_hard after_strategy force_truncate forced_cut first_fit
    preserve_key_results missing is_kept identity remember tell finish compact_each
program = tt

its_plan : plan config talk ≡ record {
  cut = 2;
  keep_from = 3;
  key_results = 1 ∷ [];
  target_tokens = 10;
  budget_tokens = 40;
  keep_recent_turns = 1;
}
unfolding program
its_plan = refl

-- The failed call is put in front of what is kept, and the report does not count it.
compacted : (compact "" talk manager).0 ≡ broken "2" ∷ drop 2 talk
unfolding program
compacted = refl

not_counted : (compact "" talk manager).1.messages_after ≡ 4
unfolding program
not_counted = refl

abbrev tight : Manager
tight = record manager { config = record config { scaled = 30; keep_recent_turns = 9 } }

-- Nothing older than the protected tail: the failed call is lost.
cut_hard : (compact "" talk tight).0 ≡ drop 2 talk
unfolding program
cut_hard = refl

cut_here : (plan config talk).cut ≡ 2
unfolding program
cut_here = refl

from_here : (plan config talk).keep_from ≡ 3
unfolding program
from_here = refl

forced_here : forced_cut config talk ≡ 1
unfolding program
forced_here = refl

broken_key : is_key_result (broken "2") ≡ true
unfolding program
broken_key = refl

leaves_here : leaves_some (truncate_compact (plan config talk) talk) ≡ true
unfolding program
leaves_here = refl

keep_from-Protects_example : Protects 1 talk
keep_from-Protects_example = keep_from-Protects 1 talk

plan_roomy_example : leaves_room config talk 2 ≡ true
plan_roomy_example = plan_roomy config talk 2 (omega (arith, cut_here)) (omega (arith, from_here))

plan_stops_example :
    ((plan config talk).cut ≡ 0) ⊎ (leaves_room config talk ((plan config talk).cut - 1) ≡ false)
plan_stops_example = plan_stops config talk

admit-reference_example : admit config talk ≡ reference config 0 talk
admit-reference_example = admit-reference config talk

-- A message with another ID.
other_id : (k : Message) → is_empty k.id ≡ false → str_eq k.id "2" ≡ false → Apart "" (broken "2") k
other_id k named other = inr (inl (named, grind (arith, str_eq_iff k.id "2")))

talk-Apart : All (Apart "" (broken "2")) talk
talk-Apart = (
  other_id (said "1" user) refl refl,
  (
    inl refl,
    (
      other_id (said "3" assistant) refl refl,
      (
        other_id (said "4" user) refl refl,
        (other_id (said "5" assistant) refl refl, (other_id (said "6" user) refl refl, tt)),
      ),
    ),
  ),
)

folded-Apart : All (Apart "" (broken "2")) (folded_by (truncate_compact (plan config talk) talk))
unfolding program
folded-Apart = (
  other_id (said "3" assistant) refl refl,
  (
    other_id (said "4" user) refl refl,
    (other_id (said "5" assistant) refl refl, (other_id (said "6" user) refl refl, tt)),
  ),
)

compact-Has_example : Has (broken "2") (compact "" talk manager).0
compact-Has_example =
    compact-Has "" (broken "2") talk manager 1 refl refl broken_key (omega (arith, cut_here)) refl
      talk-Apart folded-Apart

abbrev worked : Message
worked = record (broken "") {
  content = record (zero_block ContentType.tool_result) { output = "fine" } ∷ [];
}

abbrev nameless : List Message
nameless =
    said "1" user ∷ broken "" ∷ said "3" assistant ∷ said "4" user ∷ worked ∷ said "6" user ∷ []

nameless_key : (plan config nameless).key_results ≡ 1 ∷ []
unfolding program
nameless_key = refl

-- Without an ID the failed call is taken for the tool result behind the cut, and is lost.
nameless_lost : (compact "" nameless manager).0 ≡ drop 2 nameless
unfolding program
nameless_lost = refl

forced_cut_fits_example :
    (fits_budget config (drop (forced_cut config talk) talk) ≡ true)
    ⊎ (forced_cut config talk ≡ length talk - 1)
forced_cut_fits_example = forced_cut_fits config talk (omega arith)

compact-some_example : 0 < length (compact "" talk manager).0
compact-some_example = compact-some "" talk manager (omega arith) leaves_here

compact_each-IsNewest_example :
    IsNewest
      (compact_each "" (talk ∷ talk ∷ []) manager).0
      (compact_each "" (talk ∷ talk ∷ []) manager).1
compact_each-IsNewest_example =
    compact_each-IsNewest "" (talk ∷ talk ∷ []) [] manager (record { newest = refl })

compact-Told_example :
    Told
      (should_compact config talk)
      (compact "" talk manager).1
      manager
      (compact "" talk manager).2
compact-Told_example = compact-Told "" talk manager
