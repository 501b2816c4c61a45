-- ===== src/Core/Tools/Slots.antt =====
-- internal/core/loop.go, executeToolsConcurrently: the slots of the results.
use mathlib.Core.Bool.{false≢true}
use marx_agent.Prelude.{
  ◌≡◌, ◌≢◌, refl, ap, ◌∙◌, Bool, true, false, none, some, List, [], ◌∷◌, ◌⊎◌, inl, inr, arith, ℕ,
  zero, suc, ◌<◌, length, length-map, get_elem?, set, map, ◌==◌, ◌||◌, Option-cases, Bool-cases,
}
use marx_agent.Core.Message.{ToolInvocation, ToolResult}
use marx_agent.Core.Emit.{Agent, ToolOutcome}
use marx_agent.Core.Tools.{
  Job, zero_result, error_tool_result, refused_tool_result, settled, tool_outcome, execute_tool,
  run_job, run_slots, execute_tools_concurrently,
}

-- The result is the answer to the job's call.
abbrev pub Answers : Job → ToolResult → Type 0
Answers job r = (r.tool_call_id ≡ job.0.tool_call_id) × (r.tool_name ≡ job.0.tool_name)

unfoldable pub elem : ℕ → List ℕ → Bool
elem i [] = false
elem i (j ∷ js) = i == j || elem i js

-- Every goroutine runs: the runtime's part of WaitGroup.Wait.
abbrev pub Covers : ℕ → List ℕ → Type 0
Covers n order = (i : ℕ) → i < n → elem i order ≡ true

module _ {W : Type 0} (a : Agent W) where
  tool_outcome-Answers :
      (i : ToolInvocation) (o : ToolOutcome)
      → ((tool_outcome a.std i o).tool_call_id ≡ i.tool_call_id)
        × ((tool_outcome a.std i o).tool_name ≡ i.tool_name)
  unfolding tool_outcome settled error_tool_result
  tool_outcome-Answers i o = ground arith

  pub run_job-Answers : (job : Job) (w : W) → Answers job (run_job a job w).1
  unfolding run_job execute_tool refused_tool_result error_tool_result
  run_job-Answers (i, some r) w = ground arith
  run_job-Answers (i, none) w =
      ground (arith, tool_outcome-Answers i (a.execute i.tool_name i.input w).1)

  -- Slot i holds what job i came to in some state of the world.
  abbrev pub AnsweredAt : ℕ → List Job → List ToolResult → Type 0
  AnsweredAt i jobs results =
      (job : Job) × (w : W) × (get_elem? jobs i ≡ some job)
      × (get_elem? results i ≡ some (run_job a job w).1)

  get_elem?-set :
      (i j : ℕ) (rs : List ToolResult) (r : ToolResult)
      → i < length rs
      → ((i ≡ j) × (get_elem? (set rs j r) i ≡ some r))
        ⊎ ((i ≢ j) × (get_elem? (set rs j r) i ≡ get_elem? rs i))
  get_elem?-set i j [] r h = absurd (omega arith)
  get_elem?-set zero zero (x ∷ rs) r h = inl (refl, refl)
  get_elem?-set zero (suc j) (x ∷ rs) r h = inr (omega arith, refl)
  get_elem?-set (suc i) zero (x ∷ rs) r h = inr (omega arith, refl)
  get_elem?-set (suc i) (suc j) (x ∷ rs) r h = elim (get_elem?-set i j rs r (omega arith)) [
    | inl (p, q) ↦ inl (ap suc p, q)
    | inr (p, q) ↦ inr (omega arith, q)
  ]

  length-set : (rs : List ToolResult) (j : ℕ) (r : ToolResult) → length (set rs j r) ≡ length rs
  length-set [] j r = refl
  length-set (x ∷ rs) zero r = refl
  length-set (x ∷ rs) (suc j) r = ap suc (length-set rs j r)

  get_elem?-lt :
      (i : ℕ) (jobs : List Job) → i < length jobs → (job : Job) × (get_elem? jobs i ≡ some job)
  get_elem?-lt i [] h = absurd (omega arith)
  get_elem?-lt zero (job ∷ jobs) h = (job, refl)
  get_elem?-lt (suc i) (job ∷ jobs) h = get_elem?-lt i jobs (omega arith)

  set-AnsweredAt :
      (i j : ℕ) (jobs : List Job) (results : List ToolResult) (job : Job) (w : W)
      → i < length results
      → get_elem? jobs j ≡ some job
      → (i ≡ j) ⊎ AnsweredAt i jobs results
      → AnsweredAt i jobs (set results j (run_job a job w).1)
  set-AnsweredAt i j jobs results job w h e d =
      elim (get_elem?-set i j results (run_job a job w).1 h) [
        | inl (p, q) ↦ (job, w, rw p e, q)
        | inr (p, q) ↦ keep d p q
      ]
    where
      keep :
          (i ≡ j) ⊎ AnsweredAt i jobs results
          → i ≢ j
          → get_elem? (set results j (run_job a job w).1) i ≡ get_elem? results i
          → AnsweredAt i jobs (set results j (run_job a job w).1)
      keep (inl same) p q = absurd (p same)
      keep (inr (k, v, x, y)) p q = (k, v, x, q ∙ y)

  -- The goroutine of slot i is still to run, or has run.
  abbrev Pending : ℕ → List ℕ → List Job → List ToolResult → Type 0
  Pending i order jobs results = (elem i order ≡ true) ⊎ AnsweredAt i jobs results

  Pending-skip :
      (i j : ℕ) (order : List ℕ) (jobs : List Job) (results : List ToolResult)
      → i < length jobs
      → get_elem? jobs j ≡ none
      → Pending i (j ∷ order) jobs results
      → Pending i order jobs results
  Pending-skip i j order jobs results h q (inr d) = inr d
  Pending-skip i j order jobs results h q (inl e) =
      let (job, found) = get_elem?-lt i jobs h in
      elim (Bool-cases (i == j)) [
        | inl same ↦ absurd (ground (arith, found, q, same))
        | inr other ↦ inl (unfold elem in ground arith)
      ]

  Pending-set :
      (i j : ℕ) (order : List ℕ) (jobs : List Job) (results : List ToolResult) (job : Job) (w : W)
      → i < length results
      → get_elem? jobs j ≡ some job
      → Pending i (j ∷ order) jobs results
      → Pending i order jobs (set results j (run_job a job w).1)
  Pending-set i j order jobs results job w h q (inr d) =
      inr (set-AnsweredAt i j jobs results job w h q (inr d))
  Pending-set i j order jobs results job w h q (inl e) = elim (Bool-cases (i == j)) [
    | inl same ↦ inr (set-AnsweredAt i j jobs results job w h q (inl (ground arith)))
    | inr other ↦ inl (unfold elem in ground arith)
  ]

  run_slots-none :
      (j : ℕ) (order : List ℕ) (jobs : List Job) (results : List ToolResult) (w : W)
      → get_elem? jobs j ≡ none
      → run_slots a (j ∷ order) jobs results w ≡ run_slots a order jobs results w
  unfolding run_slots
  run_slots-none j order jobs results w q = ground arith

  run_slots-some :
      (j : ℕ) (order : List ℕ) (jobs : List Job) (results : List ToolResult) (w : W) (job : Job)
      → get_elem? jobs j ≡ some job
      → run_slots a (j ∷ order) jobs results w
        ≡ run_slots a order jobs (set results j (run_job a job w).1) (run_job a job w).0
  unfolding run_slots
  run_slots-some j order jobs results w job q = ground arith

  run_slots-AnsweredAt :
      (order : List ℕ) (i : ℕ) (jobs : List Job) (results : List ToolResult) (w : W)
      → i < length jobs
      → length results ≡ length jobs
      → Pending i order jobs results
      → AnsweredAt i jobs (run_slots a order jobs results w).1
  run_slots-AnsweredAt [] i jobs results w h l (inl e) = absurd (false≢true (unfold elem in e))
  run_slots-AnsweredAt [] i jobs results w h l (inr d) = unfold run_slots in d
  run_slots-AnsweredAt (j ∷ order) i jobs results w h l d = elim (Option-cases (get_elem? jobs j)) [
    | inl q ↦ rw (run_slots-none j order jobs results w q) (
        run_slots-AnsweredAt order i jobs results w h l (Pending-skip i j order jobs results h q d))
    | inr (job, q) ↦ rw (run_slots-some j order jobs results w job q) (
        run_slots-AnsweredAt order i jobs (set results j (run_job a job w).1) (run_job a job w).0 h
          (length-set results j (run_job a job w).1 ∙ l)
          (Pending-set i j order jobs results job w (omega arith) q d))
  ]

  length-run_slots :
      (order : List ℕ) (jobs : List Job) (results : List ToolResult) (w : W)
      → length (run_slots a order jobs results w).1 ≡ length results
  length-run_slots [] jobs results w = unfold run_slots in refl
  length-run_slots (j ∷ order) jobs results w = elim (Option-cases (get_elem? jobs j)) [
    | inl q ↦ rw (run_slots-none j order jobs results w q) (length-run_slots order jobs results w)
    | inr (job, q) ↦ rw (run_slots-some j order jobs results w job q) (
        length-run_slots order jobs (set results j (run_job a job w).1) (run_job a job w).0
        ∙ length-set results j (run_job a job w).1)
  ]

  -- In whatever order the runtime lets the goroutines run, if each of them runs, there is one
  -- result for each job, and a job's slot holds what that job came to in some state of the world.
  pub execute_tools_concurrently-AnsweredAt :
      (jobs : List Job) (w : W)
      → Covers (length jobs) (a.schedule (length jobs) w).1
      → (length (execute_tools_concurrently a jobs w).1 ≡ length jobs)
        × ((i : ℕ) → i < length jobs → AnsweredAt i jobs (execute_tools_concurrently a jobs w).1)
  unfolding execute_tools_concurrently
  execute_tools_concurrently-AnsweredAt jobs w c =
      let (w', order) = a.schedule (length jobs) w in
      let sized = length-map (λ _. zero_result) jobs in
      (
        length-run_slots order jobs (map (λ _. zero_result) jobs) w' ∙ sized,
        λ i h.
            run_slots-AnsweredAt order i jobs (map (λ _. zero_result) jobs) w' h sized
              (inl (c i h)),
      )
