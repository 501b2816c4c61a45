-- ===== src/Context/Manager.antt =====
-- internal/engine/context/manager.go: Compact and what it reports and remembers.
-- A conversation's copies are values here, so cloneMessages is the identity.
pub mod Keys
pub mod Forced
pub mod Reports
pub mod Calls
use marx_agent.Prelude.{
  ℕ, suc, ◌-◌, Bool, true, false, ◌||◌, not, String, Option, none, some, List, [], ◌∷◌, ◌++◌, ◌==◌,
  ltb, leb, drop, length, get_elem?, is_empty, str_eq, str_append, if◌then◌else◌,
}
use marx_agent.Core.Message.{ContentBlock, Message}
use marx_agent.Core.Emit.{role_text}
use marx_agent.Context.Strategy.{CompactPlan, StrategyError, Compacted, folded, failed}
use marx_agent.Context.Plan.{fits_budget, plan, Config}

pub record Report : Type 0 where
  pub tokens_before : ℕ
  pub tokens_after : ℕ
  pub messages_before : ℕ
  pub messages_after : ℕ
  pub dropped : ℕ
  pub preserved : List ℕ
  pub strategy : String
  pub fell_back : Bool
  pub cache_invalidated : Bool
  pub chain_invalidated : Bool
  pub still_over_budget : Bool
  pub error : Option StrategyError

-- The calls of the two invalidators are lists, oldest first, of what their reason tells: the number
-- of messages folded and the strategy.
pub record Manager : Type 0 where
  pub config : Config
  pub last : Option Report
  pub history : List Report
  pub cache_calls : List (ℕ × String)
  pub chain_calls : List (ℕ × String)

abbrev pub max_history : ℕ
max_history = 64

-- The loop of forceTruncate: the first index whose suffix fits, or the number of messages.
unfoldable pub first_fit : Config → List Message → ℕ
first_fit c [] = 0
first_fit c (m ∷ ms) = let rest = first_fit c ms in if fits_budget c (m ∷ ms) then 0 else suc rest

unfoldable pub forced_cut : Config → List Message → ℕ
forced_cut c ms = let cut : ℕ = first_fit c ms in if leb (length ms) cut then length ms - 1 else cut

unfoldable pub force_truncate : Config → CompactPlan → List Message → List Message
force_truncate c p ms = drop (if p.cut == 0 then forced_cut c ms else p.cut) ms

abbrev pub first_text : List ContentBlock → String
first_text [] = ""
first_text (b ∷ bs) = b.text

-- messageIdentity; `nul` is the text of one zero byte.
unfoldable pub identity : String → Message → String
identity nul m =
    if is_empty m.id
    then str_append (role_text m.role) (str_append nul (first_text m.content))
    else m.id

unfoldable pub is_kept : String → Message → List Message → Bool
is_kept nul m [] = false
is_kept nul m (k ∷ ks) = str_eq (identity nul k) (identity nul m) || is_kept nul m ks

abbrev pub missing_one : String → List Message → Option Message → List Message
missing_one nul compacted none = []
missing_one nul compacted (some m) = if is_kept nul m compacted then [] else m ∷ []

unfoldable pub missing : String → List Message → List Message → List ℕ → List Message
missing nul original compacted [] = []
missing nul original compacted (i ∷ is) =
    missing_one nul compacted (get_elem? original i) ++ missing nul original compacted is

unfoldable pub preserve_key_results :
    String → List Message → List Message → CompactPlan → List Message
preserve_key_results nul original compacted p =
    missing nul original compacted p.key_results ++ compacted

unfoldable pub remember : Report → Manager → Manager
remember r m =
    let all : List Report = m.history ++ r ∷ [] in
    record m {
      last = some r;
      history = if ltb max_history (length all) then drop (length all - max_history) all else all;
    }

abbrev pub call_if : Bool → Report → List (ℕ × String) → List (ℕ × String)
call_if told r calls = if told then calls ++ (r.dropped, r.strategy) ∷ [] else calls

-- finish where something was dropped or the strategy fell back.
unfoldable pub tell : Report → Manager → Report × Manager
tell r m =
    let told : Report = record r {
      cache_invalidated = m.config.has_cache_invalidator;
      chain_invalidated = m.config.has_chain_invalidator;
    } in
    (
      told,
      remember told (record m {
        cache_calls = call_if m.config.has_cache_invalidator r m.cache_calls;
        chain_calls = call_if m.config.has_chain_invalidator r m.chain_calls;
      }),
    )

-- finish: the report as it is remembered, and the manager.
unfoldable pub finish : Report → Manager → Report × Manager
finish r m = if ltb 0 r.dropped || r.fell_back then tell r m else (r, remember r m)

abbrev pub first_report : ℕ → ℕ → Report
first_report tokens messages = record {
  tokens_before = tokens;
  tokens_after = 0;
  messages_before = messages;
  messages_after = 0;
  dropped = 0;
  preserved = [];
  strategy = "";
  fell_back = false;
  cache_invalidated = false;
  chain_invalidated = false;
  still_over_budget = false;
  error = none;
}

-- The report of the two branches that truncate.
abbrev pub truncated_report : Config → List Message → List Message → Option StrategyError → Report
truncated_report c ms kept e = record (first_report (c.estimator.of_messages ms) (length ms)) {
  strategy = "truncate";
  fell_back = true;
  error = e;
  tokens_after = c.estimator.of_messages kept;
  messages_after = length kept;
  dropped = length ms - length kept;
  still_over_budget = not (fits_budget c kept);
}

abbrev pub folded_report : Config → CompactPlan → List Message → List Message → Report
folded_report c p ms kept = record (first_report (c.estimator.of_messages ms) (length ms)) {
  strategy = c.strategy.name;
  tokens_after = c.estimator.of_messages kept;
  messages_after = length kept;
  dropped = p.cut;
  preserved = p.key_results;
}

-- Behind the call of the strategy.
unfoldable pub after_strategy :
    String → CompactPlan → List Message → Compacted → Manager → List Message × Report × Manager
after_strategy nul p ms (failed e) m =
    let kept : List Message = force_truncate m.config p ms in
    let (r, m') = finish (truncated_report m.config ms kept (some e)) m in
    (preserve_key_results nul ms kept p, r, m')
after_strategy nul p ms (folded kept) m =
    let (r, m') = finish (folded_report m.config p ms kept) m in
    (preserve_key_results nul ms kept p, r, m')

-- Compact where nothing older than the protected tail can be folded.
unfoldable pub compact_hard : CompactPlan → List Message → Manager → List Message × Report × Manager
compact_hard p ms m =
    let kept : List Message = force_truncate m.config p ms in
    let (r, m') = finish (truncated_report m.config ms kept none) m in (kept, r, m')

unfoldable pub compact_planned :
    String → CompactPlan → List Message → Manager → List Message × Report × Manager
compact_planned nul p ms m =
    if p.cut == 0
    then compact_hard p ms m
    else after_strategy nul p ms (m.config.strategy.compact p ms) m

-- Compact within the budget.
unfoldable pub compact_none : List Message → Manager → List Message × Report × Manager
compact_none ms m =
    let before : ℕ = m.config.estimator.of_messages ms in
    let r : Report = record (first_report before (length ms)) {
      tokens_after = before;
      messages_after = length ms;
      strategy = "none";
    } in
    (ms, r, remember r m)

unfoldable pub compact : String → List Message → Manager → List Message × Report × Manager
compact nul ms m =
    if fits_budget m.config ms
    then compact_none ms m
    else compact_planned nul (plan m.config ms) ms m
