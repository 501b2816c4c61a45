-- ===== src/Context/Plan.antt =====
-- internal/engine/context/manager.go: Config, the budget, Admit, and Plan, which decides where a
-- conversation is cut.
pub mod Turns
pub mod Cut
pub mod Admitted
use marx_agent.Prelude.{
  ℕ, zero, suc, ◌+◌, ◌-◌, ◌/◌, Bool, true, false, ◌&&◌, ◌||◌, Option, none, some, List, [], ◌∷◌,
  ◌==◌, ltb, leb, drop, length, get_elem?, if◌then◌else◌,
}
use marx_agent.Core.Message.{ContentType, ContentBlock, Message, Role, user, Value, boolean}
use marx_agent.Core.Inputs.{get_field}
use marx_agent.Context.Strategy.{Estimator, CompactPlan, Strategy}

-- Config with its defaults applied. `scaled` is `int(float64(ModelWindow) * MaxContextRatio)`; a
-- number that is not positive is 0.
pub record Config : Type 0 where
  pub scaled : ℕ
  pub keep_recent_turns : ℕ
  pub max_message_tokens : ℕ
  pub keep_key_results : Bool
  pub estimator : Estimator
  pub strategy : Strategy
  pub has_cache_invalidator : Bool
  pub has_chain_invalidator : Bool

unfoldable pub budget_tokens : Config → ℕ
budget_tokens c = if c.scaled == 0 then 1 else c.scaled

unfoldable pub should_compact : Config → List Message → Bool
should_compact c ms = ltb (budget_tokens c) (c.estimator.of_messages ms)

unfoldable pub fits_budget : Config → List Message → Bool
fits_budget c ms = leb (c.estimator.of_messages ms) (budget_tokens c)

-- Admit: what was admitted, and the index and the cost of the message that was refused.
unfoldable pub admit_from : Config → ℕ → List Message → List Message × Option (ℕ × ℕ)
admit_from c i [] = ([], none)
admit_from c i (m ∷ ms) =
    let (admitted, refused) = admit_from c (i + 1) ms in
    let cost : ℕ = c.estimator.of_messages (m ∷ []) in
    if ltb c.max_message_tokens cost then ([], some (i, cost)) else (m ∷ admitted, refused)

unfoldable pub admit : Config → List Message → List Message × Option (ℕ × ℕ)
admit c ms = if c.max_message_tokens == 0 then (ms, none) else admit_from c 0 ms

abbrev pub is_user : Role → Bool
is_user user = true
is_user _ = false

-- The indexes that the loop over the messages appends to turnStarts.
unfoldable pub user_indexes : ℕ → List Message → List ℕ
user_indexes i [] = []
user_indexes i (m ∷ ms) =
    let rest = user_indexes (i + 1) ms in if is_user m.role then i ∷ rest else rest

abbrev pub or_zero : Option ℕ → ℕ
or_zero none = 0
or_zero (some i) = i

-- `turnStarts[max(0, len-1-KeepRecentTurns)]`, and `turnStarts[0]` where it is the only one.
unfoldable pub keep_from : ℕ → List Message → ℕ
keep_from turns ms =
    let starts : List ℕ = 0 ∷ user_indexes 0 ms in
    or_zero (get_elem? starts (length starts - 1 - turns))

-- The walk backwards from the protected tail.
unfoldable pub walk_back : Estimator → ℕ → List Message → ℕ → ℕ
walk_back e room ms zero = 0
walk_back e room ms (suc cut) =
    let rest = walk_back e room ms cut in
    if ltb (e.of_messages (drop cut ms)) room then rest else suc cut

abbrev is_true : Option Value → Bool
is_true (some (boolean b)) = b
is_true _ = false

abbrev pub is_tool_result : ContentType → Bool
is_tool_result ContentType.tool_result = true
is_tool_result _ = false

unfoldable pub has_failed_result : List ContentBlock → Bool
has_failed_result [] = false
has_failed_result (b ∷ bs) = (is_tool_result b.type && b.is_error) || has_failed_result bs

unfoldable pub is_key_result : Message → Bool
is_key_result m = is_true (get_field "key_result" m.metadata) || has_failed_result m.content

-- The indexes below `cut` of key results.
unfoldable pub key_indexes : ℕ → ℕ → List Message → List ℕ
key_indexes i zero ms = []
key_indexes i (suc cut) [] = []
key_indexes i (suc cut) (m ∷ ms) =
    let rest = key_indexes (i + 1) cut ms in if is_key_result m then i ∷ rest else rest

unfoldable pub plan : Config → List Message → CompactPlan
plan c ms =
    let budget : ℕ = budget_tokens c in
    let from : ℕ = keep_from c.keep_recent_turns ms in
    let cut : ℕ = walk_back c.estimator (budget - budget / 4) ms from in
    record {
      cut = cut;
      keep_from = from;
      key_results = if c.keep_key_results then key_indexes 0 cut ms else [];
      target_tokens = budget / 4;
      budget_tokens = budget;
      keep_recent_turns = c.keep_recent_turns;
    }
