-- ===== src/Core/Tests/Loops.antt =====
-- internal/core/loop.go: runs of the loop, step by step.
use marx_agent.Prelude.{◌≡◌, refl, ℕ, arith, false, ◌≤◌, none, some, List, [], ◌∷◌, ◌++◌, length}
use marx_agent.Core.Message.{Message}
use marx_agent.Core.Error.{max_iterations, ok}
use marx_agent.Core.Session.{Event, EventType, error_payload, done_payload}
use marx_agent.Core.Accumulator.{empty_accumulator}
use marx_agent.Core.Accumulator.Text.{text_of}
use marx_agent.Core.Journal.{Sourced, replay}
use marx_agent.Core.Emit.{Agent, Arrival, chunk, new_event}
use marx_agent.Core.Loop.{execute_loop, consume_stream}
use marx_agent.Core.Loop.Sourcing.{execute_loop-replay}
use marx_agent.Core.Loop.Bounds.{execute_loop-requests}
use marx_agent.Core.Loop.Streaming.{consume_stream-text}
use marx_agent.Core.Run.{run, RunStep, Runs, calls, ends, live_ctx, run_step, run_steps}
use marx_agent.Core.Run.Exclusion.{IsExclusive, run_steps-IsExclusive}
use marx_agent.Core.Run.Terminal.{EndsWith, run_failed, run_done}
use marx_agent.Core.Tests.{program, demo, fresh, question, call, text_chunk, call_chunk}

-- The run asks the provider twice and ends well, with four messages.
two_turns : (execute_loop demo question fresh).1 ≡ ok tt
unfolding program
two_turns = refl

two_requests : length (execute_loop demo question fresh).0.requested ≡ 2
unfolding program
two_requests = refl

four_messages : length (execute_loop demo question fresh).0.messages ≡ 4
unfolding program
four_messages = refl

execute_loop-replay_example : Sourced fresh (execute_loop demo question fresh).0
unfolding program
execute_loop-replay_example = execute_loop-replay demo question fresh

execute_loop-requests_example : length (execute_loop demo question fresh).0.requested ≤ 5
execute_loop-requests_example = execute_loop-requests demo question fresh

abbrev arrivals : List Arrival
arrivals =
    chunk (text_chunk "Let me ")
    ∷ chunk (text_chunk "look.")
    ∷ chunk (call_chunk (call "a" "look"))
    ∷ []

consume_stream-text_example :
    text_of (consume_stream demo "m" arrivals empty_accumulator fresh).1.content ≡ "Let me look."
unfolding program
consume_stream-text_example = consume_stream-text demo "m" arrivals empty_accumulator fresh refl

-- One iteration does not do: the model wants its tool.
abbrev hasty : Agent ℕ
hasty = record demo { max_iterations = 1 }

run_failed_example :
    EndsWith hasty
      (new_event hasty EventType.error
        (error_payload "agent_loop" max_iterations)
        (some max_iterations))
      (run hasty question fresh).0
unfolding program
run_failed_example = run_failed hasty question fresh max_iterations refl refl

run_done_example :
    (earlier : List Event) × (told : List Message) × ((run demo question fresh).0.published
      ≡ earlier ++ new_event demo EventType.done (done_payload told) none ∷ [])
    × (replay earlier ≡ told)
unfolding program
run_done_example = run_done demo question fresh refl refl refl

abbrev idle : Runs
idle = record { running = false; active = 0 }

abbrev rush : List RunStep
rush = calls live_ctx question ∷ calls live_ctx question ∷ ends ∷ calls live_ctx question ∷ []

one_active : (run_steps demo rush idle).active ≡ 1
unfolding program run_step run_steps
one_active = refl

run_steps-IsExclusive_example : IsExclusive (run_steps demo rush idle)
run_steps-IsExclusive_example =
    run_steps-IsExclusive demo rush idle (record { one = omega arith; told = refl })
