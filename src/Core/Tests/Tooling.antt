-- ===== src/Core/Tests/Tooling.antt =====
-- internal/core/loop.go: tools at work.
use marx_agent.Prelude.{◌≡◌, ◌≢◌, refl, ℕ, ◌<◌, none, List, [], ◌∷◌, length, map, All}
use marx_agent.Core.Message.{ContentBlock}
use marx_agent.Core.Tools.{
  Job, reconcile_refused_calls, execute_tools_concurrently, run_tools, invocation_of,
}
use marx_agent.Core.Tools.Slots.{AnsweredAt, execute_tools_concurrently-AnsweredAt}
use marx_agent.Core.Tools.Answers.{ids, ids-reconcile_refused_calls, IsWritable, run_tools-IsSound}
use marx_agent.Core.Tools.Complete.{run_tools-ids, run_tools_unencodable}
use marx_agent.Core.Tests.{
  program, demo, demo_std, fresh, call, two_calls, demo-IsFair, fresh-Unhooked, countdown-Covers,
}

run_tools-ids_example :
    map (λ r. r.tool_call_id) (run_tools demo two_calls fresh).1 ≡ "a" ∷ "b" ∷ []
unfolding program
run_tools-ids_example = run_tools-ids demo two_calls fresh demo-IsFair fresh-Unhooked refl

ids-reconcile_refused_calls_example :
    ids (reconcile_refused_calls demo_std two_calls (call "b" "look" ∷ [])) ≡ "a" ∷ "b" ∷ []
ids-reconcile_refused_calls_example =
    ids-reconcile_refused_calls demo_std two_calls (call "b" "look" ∷ [])

abbrev two_jobs : List Job
two_jobs = map (λ c. (invocation_of demo c, none)) two_calls

execute_tools_concurrently-AnsweredAt_example :
    (length (execute_tools_concurrently demo two_jobs 0).1 ≡ 2)
    × ((i : ℕ) → i < 2 → AnsweredAt demo i two_jobs (execute_tools_concurrently demo two_jobs 0).1)
execute_tools_concurrently-AnsweredAt_example =
    execute_tools_concurrently-AnsweredAt demo two_jobs 0 (countdown-Covers 2)

run_tools-IsSound_example :
    (length (run_tools demo two_calls fresh).1 ≡ 2)
    × All (IsWritable demo) (run_tools demo two_calls fresh).1
unfolding program
run_tools-IsSound_example = run_tools-IsSound demo two_calls fresh refl

abbrev with_bell : List ContentBlock
with_bell = call "a" "look" ∷ call "b" "ring" ∷ []

run_tools_unencodable_example : (run_tools demo with_bell fresh).2 ≢ none
run_tools_unencodable_example =
    run_tools_unencodable demo with_bell fresh 1 (call "b" "ring") "bell" demo-IsFair fresh-Unhooked
      refl refl refl (λ input w. refl) refl
