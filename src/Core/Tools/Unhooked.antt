-- ===== src/Core/Tools/Unhooked.antt =====
-- internal/core/loop.go: the results of a turn where no hook stands between the calls and the tools.
use marx_agent.Prelude.{
  ◌≡◌, refl, ap, ◌∙◌, true, false, none, some, List, [], ◌∷◌, ◌⊎◌, inl, inr, arith, ℕ, suc, ◌<◌,
  length, map, Option-cases, Bool-cases, String, if◌then◌else◌,
}
use marx_agent.Core.Message.{ContentBlock, ToolResult}
use marx_agent.Core.Error.{Error, HookType, ok, err}
use marx_agent.Core.Validate.{validate_tool_invocation}
use marx_agent.Core.Session.{HookData, results_data, result_data, invocation_data, Session}
use marx_agent.Core.Hooks.{trigger, trigger_from}
use marx_agent.Core.Emit.{Agent}
use marx_agent.Core.Tools.{
  Job, execute_tools_concurrently, invocation_of, prepare, settle, finish_tools, run_tools,
  with_arguments, add_job,
}
use marx_agent.Core.Tools.Slots.{AnsweredAt, run_job-Answers}
use marx_agent.Core.Tools.Answers.{ids}

-- No hook is registered at the three points between the calls and the results.
pub record Unhooked {W : Type 0} (s : Session W) : Type 0 where
  pub pre : s.registry.entries HookType.pre_tool_exec ≡ []
  pub post : s.registry.entries HookType.post_tool_exec ≡ []
  pub result : s.registry.entries HookType.tool_result ≡ []

job_id : Job → String
job_id job = job.0.tool_call_id

module _ {W : Type 0} (a : Agent W) where
  trigger_nil :
      (t : HookType) (value : HookData) (s : Session W)
      → s.registry.entries t ≡ []
      → trigger a.who t value s ≡ (s, value, none)
  unfolding trigger trigger_from
  trigger_nil t value s h = rw h

  -- The job that a call becomes.
  abbrev pub job_of : ContentBlock → Job
  job_of c =
      if c.is_error
      then (invocation_of a c, some c)
      else (with_arguments a (invocation_of a c), none)

  prepare_error :
      (c : ContentBlock) (cs : List ContentBlock) (s : Session W)
      → c.is_error ≡ true
      → prepare a (c ∷ cs) s ≡ add_job a (invocation_of a c, some c) (prepare a cs s)
  unfolding prepare
  prepare_error c cs s e = ground arith

  prepare_plain :
      (c : ContentBlock) (cs : List ContentBlock) (s : Session W)
      → s.registry.entries HookType.pre_tool_exec ≡ []
      → c.is_error ≡ false
      → ((e : Error) × (prepare a (c ∷ cs) s ≡ (s, err e)))
        ⊎ (prepare a (c ∷ cs) s
            ≡ add_job a (with_arguments a (invocation_of a c), none) (prepare a cs s))
  unfolding prepare
  prepare_plain c cs s h e =
      let i = with_arguments a (invocation_of a c) in
      let asked = trigger_nil HookType.pre_tool_exec (invocation_data (invocation_of a c)) s h in
      elim (Option-cases (validate_tool_invocation a.std i)) [
        | inr (x, v) ↦ inl (x, ground arith)
        | inl v ↦ inr (ground arith)
      ]

  prepare_unhooked :
      (calls : List ContentBlock) (s : Session W)
      → s.registry.entries HookType.pre_tool_exec ≡ []
      → ((e : Error) × (prepare a calls s ≡ (s, err e)))
        ⊎ (prepare a calls s ≡ (s, ok (map job_of calls)))
  prepare_unhooked [] s h = inr (unfold prepare in refl)
  prepare_unhooked (c ∷ cs) s h = elim (Bool-cases c.is_error) [
    | inl e ↦ elim (prepare_unhooked cs s h) [
      | inl (x, q) ↦ inl (x, prepare_error c cs s e ∙ ap (add_job a (invocation_of a c, some c)) q)
      | inr q ↦ inr (rw (prepare_error c cs s e, q, e))
    ]
    | inr e ↦ elim (prepare_plain c cs s h e) [
      | inl failed ↦ inl failed
      | inr step ↦ elim (prepare_unhooked cs s h) [
        | inl (x, q) ↦ inl (x, step ∙ ap (add_job a (with_arguments a (invocation_of a c), none)) q)
        | inr q ↦ inr (rw (step, q, e))
      ]
    ]
  ]

  settle_unhooked :
      (rs : List ToolResult) (s : Session W)
      → s.registry.entries HookType.tool_result ≡ []
      → (settle a rs s).1 ≡ rs
  unfolding settle
  settle_unhooked [] s h = refl
  settle_unhooked (r ∷ rs) s h =
      ground (arith, trigger_nil HookType.tool_result (result_data r) s h, settle_unhooked rs s h)

  finish_tools-Unhooked :
      (n : ℕ) (rs : List ToolResult) (s : Session W) → Unhooked s → (finish_tools a n rs s).1 ≡ rs
  unfolding finish_tools
  finish_tools-Unhooked n rs s u = ground (
    arith,
    trigger_nil HookType.post_tool_exec (results_data rs) s u.post,
    settle_unhooked rs s u.result,
  )

  -- Without hooks, runTools gives what the tools came to, or fails before any tool has run.
  pub run_tools-Unhooked :
      (calls : List ContentBlock) (s : Session W)
      → Unhooked s
      → ((e : Error) × (run_tools a calls s ≡ (s, [], some e)))
        ⊎ ((run_tools a calls s).1 ≡ (execute_tools_concurrently a (map job_of calls) s.world).1)
  unfolding run_tools
  run_tools-Unhooked calls s u = elim (prepare_unhooked calls s u.pre) [
    | inl (e, q) ↦ inl (e, ground arith)
    | inr q ↦
        let (w, results) = execute_tools_concurrently a (map job_of calls) s.world in
        inr (
          ground (
            arith,
            q,
            finish_tools-Unhooked (length calls) results (record s { world = w })
                (record { pre = u.pre; post = u.post; result = u.result }),
          ))
  ]

  job_of-id : (c : ContentBlock) → (job_of c).0.tool_call_id ≡ c.tool_call_id
  job_of-id c = ground arith

  pub answered-ids :
      (calls : List ContentBlock) (results : List ToolResult)
      → length results ≡ length calls
      → ((i : ℕ) → i < length calls → AnsweredAt a i (map job_of calls) results)
      → map (λ r. r.tool_call_id) results ≡ ids calls
  answered-ids [] [] l h = refl
  answered-ids [] (r ∷ results) l h = absurd (omega arith)
  answered-ids (c ∷ calls) [] l h = absurd (omega arith)
  answered-ids (c ∷ calls) (r ∷ results) l h =
      let (job, w, q, k) = h 0 (omega arith) in
      let first : r.tool_call_id ≡ c.tool_call_id =
        ground (arith, q, k, run_job-Answers a job w, job_of-id c) in
      let rest = answered-ids calls results (omega arith) (λ i b. h (suc i) (omega arith)) in
      λ i. first i ∷ rest i
