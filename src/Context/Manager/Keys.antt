-- ===== src/Context/Manager/Keys.antt =====
-- internal/engine/context/manager.go: what Compact keeps of the key results.
use mathlib.Core.Path.{subst}
use marx_agent.Prelude.{
  ℕ, zero, suc, ◌+◌, ◌<◌, ◌≡◌, ◌≢◌, ◌⊎◌, refl, ap, ◌∙◌, true, false, String, is_empty, str_eq,
  str_eq→eq, str_append, drop, All, some, List, [], ◌∷◌, ◌++◌, ◌==◌, get_elem?, arith, inl, inr,
  Bool-cases, append_assoc,
}
use marx_agent.Core.Message.{Message}
use marx_agent.Core.Emit.{role_text}
use marx_agent.Context.Plan.{is_key_result, Config, plan, fits_budget, key_indexes}
use marx_agent.Context.Plan.Cut.{Among, key_indexes-Among}
use marx_agent.Context.Strategy.{CompactPlan, Compacted, folded, failed}
use marx_agent.Context.Manager.{
  first_text, Manager, force_truncate, identity, is_kept, missing, missing_one,
  preserve_key_results, compact, compact_planned, compact_none, after_strategy,
}

-- The message itself is one of them.
abbrev pub Has : Message → List Message → Type 0
Has m [] = ⊥
Has m (x ∷ xs) = (x ≡ m) ⊎ Has m xs

Has-append_right : (m : Message) (xs ys : List Message) → Has m ys → Has m (xs ++ ys)
Has-append_right m [] ys h = h
Has-append_right m (x ∷ xs) ys h = inr (Has-append_right m xs ys h)

get_elem?-Has : (ms : List Message) (i : ℕ) (m : Message) → get_elem? ms i ≡ some m → Has m ms
get_elem?-Has [] i m here = ground (arith, here)
get_elem?-Has (x ∷ ms) zero m here = inl cc
get_elem?-Has (x ∷ ms) (suc i) m here = inr (get_elem?-Has ms i m here)

-- What the strategy gives, where it gives a conversation.
abbrev pub folded_by : Compacted → List Message
folded_by (folded kept) = kept
folded_by (failed e) = []

module _ (nul : String) (m : Message) where
  -- The message `m`, or one that does not go by the ID of `m`: it has another ID, or it has none and
  -- its role, a zero byte and its first text are not that ID either.
  abbrev pub Apart : Message → Type 0
  Apart k =
      (k ≡ m)
      ⊎ (((is_empty k.id ≡ false) × (k.id ≢ m.id))
          ⊎ ((is_empty k.id ≡ true)
              × (str_append (role_text k.role) (str_append nul (first_text k.content)) ≢ m.id)))

  All-drop : (n : ℕ) (ms : List Message) → All Apart ms → All Apart (drop n ms)
  All-drop zero ms h = h
  All-drop (suc n) [] h = h
  All-drop (suc n) (k ∷ ms) h = All-drop n ms h.1

  identity-Apart :
      (k : Message)
      → is_empty m.id ≡ false
      → Apart k
      → str_eq (identity nul k) (identity nul m) ≡ true
      → k ≡ m
  unfolding identity
  identity-Apart k named (inl same) e = same
  identity-Apart k named (inr (inl (has, other))) e =
      absurd (other (str_eq→eq k.id m.id (simp (has, named) at e)))
  identity-Apart k named (inr (inr (none, other))) e =
      absurd (other (str_eq→eq _ m.id (simp (none, named) at e)))

  is_kept-Has :
      (ks : List Message)
      → is_empty m.id ≡ false
      → All Apart ks
      → is_kept nul m ks ≡ true
      → Has m ks
  unfolding is_kept
  is_kept-Has [] named h kept = ground (arith, kept)
  is_kept-Has (k ∷ ks) named h kept = elim (Bool-cases (str_eq (identity nul k) (identity nul m))) [
    | inl same ↦ inl (identity-Apart k named h.0 same)
    | inr other ↦ inr (is_kept-Has ks named h.1 (simp other at kept))
  ]

  missing-Has :
      (ms kept : List Message) (is : List ℕ) (n i : ℕ)
      → is_empty m.id ≡ false
      → All Apart kept
      → get_elem? is n ≡ some i
      → get_elem? ms i ≡ some m
      → Has m (missing nul ms kept is ++ kept)
  unfolding missing
  missing-Has ms kept [] n i named h at here = ground (arith, at)
  missing-Has ms kept (j ∷ is) zero i named h at here =
      let same : j ≡ i = cc in
      let there : get_elem? ms j ≡ some m = ap (get_elem? ms) same ∙ here in
      elim (Bool-cases (is_kept nul m kept)) [
        | inl found ↦
            Has-append_right m (missing nul ms kept (j ∷ is)) kept (is_kept-Has kept named h found)
        | inr lost ↦ simp (there, lost) (inl refl)
      ]
  missing-Has ms kept (j ∷ is) (suc n) i named h at here =
      let one = missing_one nul kept (get_elem? ms j) in
      rw (append_assoc one (missing nul ms kept is) kept) (
        Has-append_right m one (missing nul ms kept is ++ kept)
          (missing-Has ms kept is n i named h at here))

  after_strategy-preserves :
      (p : CompactPlan) (ms : List Message) (out : Compacted) (w : Manager)
      → All Apart ms
      → All Apart (folded_by out)
      → (kept : List Message) × All Apart kept
        × ((after_strategy nul p ms out w).0 ≡ preserve_key_results nul ms kept p)
  unfolding after_strategy force_truncate
  after_strategy-preserves p ms (failed e) w h g =
      (force_truncate w.config p ms, All-drop _ ms h, refl)
  after_strategy-preserves p ms (folded kept) w h g = (kept, g, refl)

  plan-Among :
      (c : Config) (ms : List Message) (i : ℕ)
      → c.keep_key_results ≡ true
      → get_elem? ms i ≡ some m
      → is_key_result m ≡ true
      → i < (plan c ms).cut
      → Among i (plan c ms).key_results
  unfolding plan
  plan-Among c ms i on here key lt =
      let place : 0 + i ≡ i = omega arith in
      simp on (
        subst (λ j. Among j (key_indexes 0 (plan c ms).cut ms)) place
          (key_indexes-Among (plan c ms).cut 0 i ms m lt here key))

  compact_planned-Has :
      (p : CompactPlan) (ms : List Message) (w : Manager) (i : ℕ)
      → is_empty m.id ≡ false
      → All Apart ms
      → All Apart (folded_by (w.config.strategy.compact p ms))
      → get_elem? ms i ≡ some m
      → i < p.cut
      → Among i p.key_results
      → Has m (compact_planned nul p ms w).0
  unfolding compact_planned preserve_key_results
  compact_planned-Has p ms w i named h g here lt (n, at) =
      let some_cut : (p.cut == 0) ≡ false = ground (arith, lt) in
      let (kept, apart, out) =
        after_strategy-preserves p ms (w.config.strategy.compact p ms) w h g in
      simp (some_cut, out) (missing-Has ms kept p.key_results n i named apart at here)

  -- Where key results are to be kept, Compact keeps a key result that has an ID and stands in
  -- front of the cut of its plan: that very message is in the conversation that it gives, whether
  -- the strategy folds, drops or fails, if no other message of the conversation goes by that ID,
  -- and none of those that the strategy gives.
  pub compact-Has :
      (ms : List Message) (w : Manager) (i : ℕ)
      → w.config.keep_key_results ≡ true
      → get_elem? ms i ≡ some m
      → is_key_result m ≡ true
      → i < (plan w.config ms).cut
      → is_empty m.id ≡ false
      → All Apart ms
      → All Apart (folded_by (w.config.strategy.compact (plan w.config ms) ms))
      → Has m (compact nul ms w).0
  unfolding compact compact_none
  compact-Has ms w i on here key lt named h g = elim (Bool-cases (fits_budget w.config ms)) [
    | inl fits ↦ simp fits (get_elem?-Has ms i m here)
    | inr over ↦
        let among = plan-Among w.config ms i on here key lt in
        simp over (compact_planned-Has (plan w.config ms) ms w i named h g here lt among)
  ]
