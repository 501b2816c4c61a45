-- ===== src/Context/Manager/Calls.antt =====
-- internal/engine/context/manager.go, Compact and finish: which invalidators are called.
use marx_agent.Prelude.{
  ℕ, ◌≡◌, refl, ap, sym, ◌∙◌, Bool, true, false, ◌&&◌, ◌||◌, String, none, some, List, [], ◌∷◌,
  ◌++◌, ◌==◌, not, arith, inl, inr, Bool-cases, if◌then◌else◌, ltb, append-nil,
}
use marx_agent.Core.Message.{Message}
use marx_agent.Context.Plan.{Config, plan, fits_budget, should_compact}
use marx_agent.Context.Strategy.{CompactPlan, Compacted, folded, failed}
use marx_agent.Context.Manager.{
  Manager, call_if, Report, remember, finish, tell, compact, compact_planned, compact_none,
  compact_hard, after_strategy, force_truncate, truncated_report, folded_report,
}

-- The call that tells of a report, if there is one.
abbrev pub call_for : Bool → Report → List (ℕ × String)
call_for told r = if told then (r.dropped, r.strategy) ∷ [] else []

-- Both invalidators, where they are set, have been called for the report if it rewrote something.
abbrev pub Told : Bool → Report → Manager → Manager → Type 0
Told rewrote r w w' =
    (w'.cache_calls ≡ w.cache_calls ++ call_for (rewrote && w.config.has_cache_invalidator) r)
    × (w'.chain_calls ≡ w.chain_calls ++ call_for (rewrote && w.config.has_chain_invalidator) r)

call_if-call_for :
    (has : Bool) (r : Report) (calls : List (ℕ × String))
    → call_if has r calls ≡ calls ++ call_for has r
call_if-call_for true r calls = refl
call_if-call_for false r calls = sym (append-nil calls)

finish-Told :
    (r : Report) (w : Manager)
    → (ltb 0 r.dropped || r.fell_back) ≡ true
    → Told true (finish r w).0 w (finish r w).1
unfolding finish tell remember
finish-Told r w h =
    let cache = w.config.has_cache_invalidator in
    let chain = w.config.has_chain_invalidator in
    simp h (call_if-call_for cache r w.cache_calls, call_if-call_for chain r w.chain_calls)

after_strategy-Told :
    (nul : String) (p : CompactPlan) (ms : List Message) (out : Compacted) (w : Manager)
    → (p.cut == 0) ≡ false
    → Told true (after_strategy nul p ms out w).1 w (after_strategy nul p ms out w).2
unfolding after_strategy
after_strategy-Told nul p ms (failed e) w h =
    let r = truncated_report w.config ms (force_truncate w.config p ms) (some e) in
    finish-Told r w (ground arith)
after_strategy-Told nul p ms (folded kept) w h =
    finish-Told (folded_report w.config p ms kept) w (ground (arith, h))

should_compact-fits_budget :
    (c : Config) (ms : List Message) → should_compact c ms ≡ not (fits_budget c ms)
unfolding should_compact fits_budget
should_compact-fits_budget c ms = ground arith

-- Compact calls each invalidator that is set exactly once, with the number of messages dropped
-- and the strategy of the report that it returns, if the conversation should be compacted, and
-- calls none otherwise.
pub compact-Told :
    (nul : String) (ms : List Message) (w : Manager)
    → Told (should_compact w.config ms) (compact nul ms w).1 w (compact nul ms w).2
unfolding compact compact_none compact_planned compact_hard remember
compact-Told nul ms w =
    let p = plan w.config ms in
    let kept = force_truncate w.config p ms in
    elim (Bool-cases (fits_budget w.config ms)) [
      | inl fits ↦
          let should = should_compact-fits_budget w.config ms ∙ ap not fits in
          simp (should, fits) (sym (append-nil w.cache_calls), sym (append-nil w.chain_calls))
      | inr over ↦
          let should = should_compact-fits_budget w.config ms ∙ ap not over in
          elim (Bool-cases (p.cut == 0)) [
            | inl no_cut ↦
                let hard = finish-Told (truncated_report w.config ms kept none) w (ground arith) in
                simp (should, over, no_cut) hard
            | inr cut ↦
                let out = w.config.strategy.compact p ms in
                simp (should, over, cut) (after_strategy-Told nul p ms out w cut)
          ]
    ]
