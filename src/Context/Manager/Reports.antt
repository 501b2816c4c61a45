-- ===== src/Context/Manager/Reports.antt =====
-- internal/engine/context/manager.go: what Compact tells the invalidators and remembers.
use mathlib.Core.Path.{subst}
use marx_agent.Prelude.{
  append-nil, ◌+◌, ◌-◌, ◌≡◌, refl, ap, sym, ◌∙◌, ◌||◌, String, none, some, List, [], ◌∷◌, ◌++◌,
  ◌==◌, length, arith, inl, inr, Bool-cases, ltb, drop, length-drop, length-append, append_assoc,
  drop-append, drop-drop_add,
}
use marx_agent.Core.Message.{Message}
use marx_agent.Context.Plan.{plan, fits_budget}
use marx_agent.Context.Strategy.{CompactPlan, Compacted, folded, failed}
use marx_agent.Context.Manager.{
  Manager, Report, remember, finish, tell, compact, compact_planned, compact_none, compact_hard,
  after_strategy, max_history, force_truncate, truncated_report, folded_report,
}

-- The history holds the newest of all the reports.
pub record IsNewest (all : List Report) (w : Manager) : Type 0 where
  pub newest : w.history ≡ drop (length all - max_history) all

remember-IsNewest :
    (r : Report) (all : List Report) (w : Manager)
    → IsNewest all w
    → IsNewest (all ++ r ∷ []) (remember r w)
unfolding remember
remember-IsNewest r all w k =
    let d = length all - 64 in
    let longer : length (all ++ r ∷ []) ≡ length all + 1 = length-append all (r ∷ []) in
    let whole : w.history ++ r ∷ [] ≡ drop d (all ++ r ∷ []) =
      ap (λ h. h ++ r ∷ []) k.newest ∙ sym (drop-append d all (r ∷ []) (omega arith)) in
    let size : length (w.history ++ r ∷ []) ≡ length all + 1 - d =
      ap length whole ∙ length-drop d (all ++ r ∷ []) ∙ ap (λ n. n - d) longer in
    elim (Bool-cases (ltb 64 (length (w.history ++ r ∷ [])))) [
      | inl full ↦
          let lost = length (w.history ++ r ∷ []) - 64 in
          let same : d + lost ≡ length (all ++ r ∷ []) - 64 = ground (arith, size, longer, full) in
          simp full (record {
            newest =
                ap (drop lost) whole
                ∙ drop-drop_add lost d (all ++ r ∷ [])
                ∙ ap (λ n. drop n (all ++ r ∷ [])) same;
          })
      | inr fits ↦
          let same : d ≡ length (all ++ r ∷ []) - 64 = ground (arith, size, longer, fits) in
          simp fits (record { newest = whole ∙ ap (λ n. drop n (all ++ r ∷ [])) same })
    ]

finish-history :
    (r : Report) (w : Manager) → (finish r w).1.history ≡ (remember (finish r w).0 w).history
unfolding finish tell remember
finish-history r w = elim (Bool-cases (ltb 0 r.dropped || r.fell_back)) [
  | inl h ↦ simp h refl
  | inr h ↦ simp h refl
]

after_strategy-history :
    (nul : String) (p : CompactPlan) (ms : List Message) (out : Compacted) (w : Manager)
    → (after_strategy nul p ms out w).2.history
      ≡ (remember (after_strategy nul p ms out w).1 w).history
unfolding after_strategy
after_strategy-history nul p ms (failed e) w =
    finish-history (truncated_report w.config ms (force_truncate w.config p ms) (some e)) w
after_strategy-history nul p ms (folded kept) w =
    finish-history (folded_report w.config p ms kept) w

compact-history :
    (nul : String) (ms : List Message) (w : Manager)
    → (compact nul ms w).2.history ≡ (remember (compact nul ms w).1 w).history
unfolding compact compact_none compact_planned compact_hard
compact-history nul ms w =
    let p = plan w.config ms in
    let hard =
      finish-history (truncated_report w.config ms (force_truncate w.config p ms) none) w in
    let soft = after_strategy-history nul p ms (w.config.strategy.compact p ms) w in
    elim (Bool-cases (fits_budget w.config ms)) [
      | inl fits ↦ simp fits refl
      | inr over ↦ elim (Bool-cases (p.cut == 0)) [
        | inl no_cut ↦ simp (over, no_cut) hard
        | inr cut ↦ simp (over, cut) soft
      ]
    ]

-- Compact after Compact, and the reports that they return, oldest first.
unfoldable pub compact_each : String → List (List Message) → Manager → List Report × Manager
compact_each nul [] w = ([], w)
compact_each nul (ms ∷ rest) w =
    let (messages, r, w') = compact nul ms w in
    let (reports, last) = compact_each nul rest w' in (r ∷ reports, last)

IsNewest-of :
    (all : List Report) (v w : Manager) → v.history ≡ w.history → IsNewest all v → IsNewest all w
IsNewest-of all v w same k = record { newest = sym same ∙ k.newest }

-- However often Compact is called, the manager has the newest 64 of the reports that the calls
-- returned, in their order, if it had the newest 64 of the earlier ones.
pub compact_each-IsNewest :
    (nul : String) (batches : List (List Message)) (all : List Report) (w : Manager)
    → IsNewest all w
    → IsNewest (all ++ (compact_each nul batches w).0) (compact_each nul batches w).1
unfolding compact_each
compact_each-IsNewest nul [] all w k = rw append-nil k
compact_each-IsNewest nul (ms ∷ rest) all w k =
    let r = (compact nul ms w).1 in
    let w' = (compact nul ms w).2 in
    let now : IsNewest (all ++ r ∷ []) w' =
      IsNewest-of (all ++ r ∷ []) (remember r w) w' (sym (compact-history nul ms w))
        (remember-IsNewest r all w k) in
    subst (λ rs. IsNewest rs (compact_each nul rest w').1)
      (append_assoc all (r ∷ []) (compact_each nul rest w').0)
      (compact_each-IsNewest nul rest (all ++ r ∷ []) w' now)
