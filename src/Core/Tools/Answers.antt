-- ===== src/Core/Tools/Answers.antt =====
-- internal/core/loop.go: the calls behind a gate, and the results that the hooks leave.
use marx_agent.Prelude.{
  ◌≡◌, refl, sym, ap, ◌∙◌, Option, none, some, List, [], ◌∷◌, inl, inr, arith, ℕ, suc, length, map,
  Option-cases, String, All, str_eq_iff, true, false, is_empty,
}
use marx_agent.Core.Message.{ContentBlock, ToolResult}
use marx_agent.Core.Error.{HookType}
use marx_agent.Core.Validate.{Std, validate_tool_result}
use marx_agent.Core.Session.{result_data, Session}
use marx_agent.Core.Hooks.{trigger}
use marx_agent.Core.Emit.{Agent}
use marx_agent.Core.Tools.{
  by_id, reconcile_refused_calls, kept_or_refused, settle, finish_tools, run_tools, as_result_data,
  cons_result,
}

abbrev pub ids : List ContentBlock → List String
ids = map (λ c. c.tool_call_id)

by_id-id :
    (id : String) (cs : List ContentBlock) (c : ContentBlock)
    → by_id id cs ≡ some c
    → c.tool_call_id ≡ id
unfolding by_id
by_id-id id [] c h = ground arith
by_id-id id (x ∷ cs) c h = elim (Option-cases (by_id id cs)) [
  | inr (d, q) ↦ by_id-id id cs c (ground arith)
  | inl q ↦ ground (arith, str_eq_iff x.tool_call_id id)
]

kept-id :
    (std : Std) (call : ContentBlock) (o : Option ContentBlock)
    → ((c : ContentBlock) → o ≡ some c → c.tool_call_id ≡ call.tool_call_id)
    → (kept_or_refused std call o).tool_call_id ≡ call.tool_call_id
kept-id std call none h = refl
kept-id std call (some c) h = h c refl

-- Whatever a gate answers, there is one call for each call that the model made, in the same order
-- and under the same IDs.
pub ids-reconcile_refused_calls :
    (std : Std) (original accepted : List ContentBlock)
    → ids (reconcile_refused_calls std original accepted) ≡ ids original
unfolding reconcile_refused_calls
ids-reconcile_refused_calls std [] accepted = refl
ids-reconcile_refused_calls std (c ∷ original) accepted = λ i.
    kept-id std c (by_id c.tool_call_id accepted) (by_id-id c.tool_call_id accepted) i
    ∷ ids-reconcile_refused_calls std original accepted i

module _ {W : Type 0} (a : Agent W) where
  -- A result that can be written down: it says which call of which tool it answers, and with JSON.
  pub record IsWritable (r : ToolResult) : Type 0 where
    pub has_id : is_empty r.tool_call_id ≡ false
    pub has_name : is_empty r.tool_name ≡ false
    pub has_output : is_empty r.output ≡ false
    pub is_json : a.std.json_valid r.output ≡ true

  abbrev IsSound : List ToolResult → Type 0
  IsSound = All IsWritable

  validate_tool_result-IsWritable :
      (r : ToolResult) → validate_tool_result a.std r ≡ none → IsWritable r
  unfolding validate_tool_result
  validate_tool_result-IsWritable r h = record {
    has_id = ground arith;
    has_name = ground arith;
    has_output = ground arith;
    is_json = ground arith;
  }

  settle-next :
      (r r' : ToolResult) (rs : List ToolResult) (s : Session W)
      → let (t, value, failed) = trigger a.who HookType.tool_result (result_data r) s in
        failed ≡ none
        → as_result_data a value ≡ some r'
        → validate_tool_result a.std r' ≡ none
        → settle a (r ∷ rs) s ≡ cons_result a r' (settle a rs t)
  unfolding settle
  settle-next r r' rs s q k v = ground arith

  settle_fails :
      (r : ToolResult) (rs : List ToolResult) (s : Session W)
      → (settle a (r ∷ rs) s).2 ≡ none
      → let (t, value, failed) = trigger a.who HookType.tool_result (result_data r) s in
        (failed ≡ none)
        × ((r' : ToolResult) × (as_result_data a value ≡ some r')
            × (validate_tool_result a.std r' ≡ none))
  unfolding settle
  settle_fails r rs s h =
      let (t, value, failed) = trigger a.who HookType.tool_result (result_data r) s in
      elim (Option-cases failed) [
        | inr (e, q) ↦ absurd (ground arith)
        | inl q ↦ elim (Option-cases (as_result_data a value)) [
          | inl k ↦ absurd (ground arith)
          | inr (r', k) ↦ elim (Option-cases (validate_tool_result a.std r')) [
            | inr (e, v) ↦ absurd (ground arith)
            | inl v ↦ (q, (r', k, v))
          ]
        ]
      ]

  settle-IsSound :
      (rs : List ToolResult) (s : Session W)
      → (settle a rs s).2 ≡ none
      → (length (settle a rs s).1 ≡ length rs) × IsSound (settle a rs s).1
  settle-IsSound [] s h = unfold settle in (refl, tt)
  settle-IsSound (r ∷ rs) s h =
      let (q, (r', k, v)) = settle_fails r rs s h in
      let t = (trigger a.who HookType.tool_result (result_data r) s).0 in
      let step = settle-next r r' rs s q k v in
      let (sized, sound) = settle-IsSound rs t (ap (λ x. x.2) (sym step) ∙ h) in
      rw step (ap suc sized, (validate_tool_result-IsWritable r' v, sound))

  finish_tools-IsSound :
      (n : ℕ) (rs : List ToolResult) (s : Session W)
      → (finish_tools a n rs s).2 ≡ none
      → (length (finish_tools a n rs s).1 ≡ n) × IsSound (finish_tools a n rs s).1
  unfolding finish_tools
  finish_tools-IsSound n rs s h = grind (arith, settle-IsSound)

  -- If runTools returns no error, then whatever the hooks answered there is one result for each
  -- call, and each result has a nonempty ID, a nonempty name and a nonempty output that is valid
  -- JSON.
  pub run_tools-IsSound :
      (calls : List ContentBlock) (s : Session W)
      → (run_tools a calls s).2 ≡ none
      → (length (run_tools a calls s).1 ≡ length calls) × IsSound (run_tools a calls s).1
  unfolding run_tools
  run_tools-IsSound calls s h = grind (arith, finish_tools-IsSound)
