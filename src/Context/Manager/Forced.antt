-- ===== src/Context/Manager/Forced.antt =====
-- internal/engine/context/manager.go, forceTruncate, and what is left of a conversation.
use marx_agent.Prelude.{
  ℕ, zero, suc, ◌-◌, ◌≤◌, ◌<◌, ◌≡◌, refl, ap, Bool, true, false, String, List, [], ◌∷◌, length,
  arith, inl, inr, ◌⊎◌, Bool-cases, leb, drop, length-drop, length-append,
}
use marx_agent.Core.Message.{Message}
use marx_agent.Context.Plan.{Config, plan, fits_budget}
use marx_agent.Context.Plan.Cut.{plan-bounds}
use marx_agent.Context.Strategy.{CompactPlan, Compacted, folded, failed}
use marx_agent.Context.Manager.{
  Manager, first_fit, forced_cut, force_truncate, compact, compact_planned, compact_none,
  compact_hard, after_strategy, preserve_key_results, missing,
}

module _ (c : Config) where
  first_fit_before :
      (ms : List Message) (j : ℕ) → j < first_fit c ms → fits_budget c (drop j ms) ≡ false
  unfolding first_fit
  first_fit_before [] j h = absurd (omega arith)
  first_fit_before (m ∷ ms) zero h = ground (arith, h)
  first_fit_before (m ∷ ms) (suc j) h = first_fit_before ms j (ground (arith, h))

  first_fit_fits :
      (ms : List Message)
      → (fits_budget c (drop (first_fit c ms) ms) ≡ true) ⊎ (first_fit c ms ≡ length ms)
  unfolding first_fit
  first_fit_fits [] = inr refl
  first_fit_fits (m ∷ ms) = elim (Bool-cases (fits_budget c (m ∷ ms))) [
    | inl fits ↦ simp fits (inl refl)
    | inr over ↦ elim (first_fit_fits ms) [
      | inl h ↦ simp over (inl h)
      | inr h ↦ simp over (inr (ap suc h))
    ]
  ]

  -- Where forceTruncate finds the place to cut by itself, everything from an earlier place on is
  -- over budget.
  pub forced_cut_least :
      (ms : List Message) (j : ℕ) → j < forced_cut c ms → fits_budget c (drop j ms) ≡ false
  unfolding forced_cut
  forced_cut_least ms j h = first_fit_before ms j (ground (arith, h))

  -- Where forceTruncate looks for the place to cut in a conversation that holds a message, what
  -- is left fits the budget or is exactly the last message.
  pub forced_cut_fits :
      (ms : List Message)
      → 0 < length ms
      → (fits_budget c (drop (forced_cut c ms) ms) ≡ true) ⊎ (forced_cut c ms ≡ length ms - 1)
  unfolding forced_cut
  forced_cut_fits ms h = elim (Bool-cases (leb (length ms) (first_fit c ms))) [
    | inl all ↦ simp all (inr refl)
    | inr part ↦ elim (first_fit_fits ms) [
      | inl fits ↦ simp part (inl fits)
      | inr same ↦ absurd (ground (arith, part, same))
    ]
  ]

  forced_cut-lt : (ms : List Message) → 0 < length ms → forced_cut c ms < length ms
  unfolding forced_cut
  forced_cut-lt ms h = ground (arith, h)

  force_truncate_some :
      (p : CompactPlan) (ms : List Message)
      → p.cut ≤ length ms - 1
      → 0 < length ms
      → 0 < length (force_truncate c p ms)
  unfolding force_truncate
  force_truncate_some p ms h k =
      ground
        (arith, forced_cut-lt ms k, h, k, length-drop (forced_cut c ms) ms, length-drop p.cut ms)

abbrev pub leaves_some : Compacted → Bool
leaves_some (failed e) = true
leaves_some (folded []) = false
leaves_some (folded (m ∷ ms)) = true

module _ (nul : String) where
  preserve-some :
      (ms kept : List Message) (p : CompactPlan)
      → 0 < length kept
      → 0 < length (preserve_key_results nul ms kept p)
  unfolding preserve_key_results
  preserve-some ms kept p h =
      omega (arith, h, length-append (missing nul ms kept p.key_results) kept)

  after_strategy-some :
      (p : CompactPlan) (ms : List Message) (out : Compacted) (w : Manager)
      → p.cut ≤ length ms - 1
      → 0 < length ms
      → leaves_some out ≡ true
      → 0 < length (after_strategy nul p ms out w).0
  unfolding after_strategy
  after_strategy-some p ms (failed e) w h k leaves =
      preserve-some ms (force_truncate w.config p ms) p (force_truncate_some w.config p ms h k)
  after_strategy-some p ms (folded []) w h k leaves = ground arith
  after_strategy-some p ms (folded (m ∷ kept)) w h k leaves =
      preserve-some ms (m ∷ kept) p (omega arith)

  -- Compact never empties a conversation: of one that holds a message it leaves at least one,
  -- whatever the budget, if the strategy fails or leaves one for the plan.
  pub compact-some :
      (ms : List Message) (w : Manager)
      → 0 < length ms
      → leaves_some (w.config.strategy.compact (plan w.config ms) ms) ≡ true
      → 0 < length (compact nul ms w).0
  unfolding compact compact_none compact_planned compact_hard
  compact-some ms w h leaves =
      let p = plan w.config ms in
      let bound : p.cut ≤ length ms - 1 = omega (arith, plan-bounds w.config ms) in
      ground (
        arith,
        h,
        force_truncate_some w.config p ms bound h,
        after_strategy-some p ms (w.config.strategy.compact p ms) w bound h leaves,
      )
