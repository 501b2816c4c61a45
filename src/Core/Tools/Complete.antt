-- ===== src/Core/Tools/Complete.antt =====
-- internal/core/loop.go: the results of runTools beside the calls.
use marx_agent.Prelude.{
  ◌≡◌, ◌≢◌, ◌∙◌, true, false, none, some, List, inl, inr, arith, ℕ, length, length-map, get_elem?,
  map, String, All-get_elem?, get_elem?-map, get_elem?-lt,
}
use marx_agent.Core.Message.{ContentBlock, ToolResult}
use marx_agent.Core.Session.{Session}
use marx_agent.Core.Emit.{Agent, tool_error}
use marx_agent.Core.Tools.{
  error_output, run_job, execute_tool, tool_outcome, error_tool_result, execute_tools_concurrently,
  run_tools, with_arguments, invocation_of,
}
use marx_agent.Core.Tools.Slots.{Covers, execute_tools_concurrently-AnsweredAt}
use marx_agent.Core.Tools.Answers.{ids, IsWritable, run_tools-IsSound}
use marx_agent.Core.Tools.Unhooked.{Unhooked, job_of, run_tools-Unhooked, answered-ids}

-- The runtime lets every goroutine run.
abbrev pub IsFair : {W : Type 0} → Agent W → Type 0
IsFair {W} a = (n : ℕ) (w : W) → Covers n (a.schedule n w).1

module _ {W : Type 0} (a : Agent W) where
  -- Where no hook stands between the calls and the tools and every goroutine runs, a runTools
  -- that returns no error gives one result for each call, in the order of the calls and under
  -- their IDs.
  pub run_tools-ids :
      (calls : List ContentBlock) (s : Session W)
      → IsFair a
      → Unhooked s
      → (run_tools a calls s).2 ≡ none
      → map (λ r. r.tool_call_id) (run_tools a calls s).1 ≡ ids calls
  run_tools-ids calls s fair u h = elim (run_tools-Unhooked a calls s u) [
    | inl (e, q) ↦ absurd (ground arith)
    | inr q ↦
        let jobs = map (job_of a) calls in
        let (sized, slots) =
          execute_tools_concurrently-AnsweredAt a jobs s.world (fair (length jobs) s.world) in
        let same = length-map (job_of a) calls in
        rw q (
          answered-ids a calls (execute_tools_concurrently a jobs s.world).1 (sized ∙ same)
            (λ i b. slots i (rw same b)))
  ]

  unencodable :
      (c : ContentBlock) (w : W) (text : String)
      → c.is_error ≡ false
      → a.registered c.tool_name ≡ true
      → ((input : String) (v : W) → (a.execute c.tool_name input v).1 ≡ tool_error text)
      → a.std.json_valid (error_output a.std text) ≡ false
      → a.std.json_valid (run_job a (job_of a c) w).1.output ≡ false
  unfolding run_job execute_tool tool_outcome error_tool_result
  unencodable c w text e r x j =
      ground (arith, x (with_arguments a (invocation_of a c)).input w, x c.input w)

  -- Where no hook stands between the calls and the tools and every goroutine runs, a call that is
  -- not refused, of a registered tool that always fails with one text, makes the whole of
  -- runTools fail if the quotation of that text is not valid JSON, wherever the call stands.
  pub run_tools_unencodable :
      (calls : List ContentBlock) (s : Session W) (i : ℕ) (c : ContentBlock) (text : String)
      → IsFair a
      → Unhooked s
      → get_elem? calls i ≡ some c
      → c.is_error ≡ false
      → a.registered c.tool_name ≡ true
      → ((input : String) (w : W) → (a.execute c.tool_name input w).1 ≡ tool_error text)
      → a.std.json_valid (error_output a.std text) ≡ false
      → (run_tools a calls s).2 ≢ none
  run_tools_unencodable calls s i c text fair u g e r x j h =
      elim (run_tools-Unhooked a calls s u) [
        | inl (y, q) ↦ ground arith
        | inr q ↦
            let jobs = map (job_of a) calls in
            let same = length-map (job_of a) calls in
            let (sized, slots) =
              execute_tools_concurrently-AnsweredAt a jobs s.world (fair (length jobs) s.world) in
            let (job, w, found, at) = slots i (rw same (get_elem?-lt calls i c g)) in
            let placed = get_elem?-map (job_of a) calls i c g in
            let sound = (run_tools-IsSound a calls s h).1 in
            let result : ToolResult = (run_job a (job_of a c) w).1 in
            let written : IsWritable a result =
              All-get_elem? (IsWritable a) (run_tools a calls s).1 i result sound
                (ground (arith, q, at, found, placed)) in
            let valid = written.is_json in let invalid = unencodable c w text e r x j in grind arith
      ]
