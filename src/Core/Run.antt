-- ===== src/Core/Run.antt =====
-- internal/core/agent.go, Run, and loop.go, run: one run at a time, and its terminal event.
-- A panic under executeLoop is recovered into an error; it reaches the model as an error of the
-- world's function that panicked.
pub mod Terminal
pub mod Exclusion
use marx_agent.Prelude.{
  ℕ, ◌+◌, ◌-◌, ◌==◌, List, [], ◌∷◌, if◌then◌else◌, String, Bool, true, false, Option, none, some,
}
use marx_agent.Core.Message.{Input}
use marx_agent.Core.Error.{
  Error, post_loop, nil_context, invalid_configuration, concurrent_run, Result, ok, err,
}
use marx_agent.Core.Session.{state_data, done_payload, EventType, Session}
use marx_agent.Core.Hooks.{trigger}
use marx_agent.Core.Emit.{Agent, emit, emit_error}
use marx_agent.Core.Inputs.{validate_input}
use marx_agent.Core.Loop.{execute_loop}

-- `context.Context` as Run reads it: nil, or its error.
pub data Context : Type 0 where
  nil_ctx : Context
  live_ctx : Context
  ended_ctx : Error → Context

module _ {W : Type 0} (a : Agent W) where
  -- Run up to the start of the goroutine: the flag `running`, and the error.
  unfoldable pub start : Context → Input → Bool → Bool × Option Error
  start nil_ctx i running = (running, some nil_context)
  start (ended_ctx e) i running = (running, some e)
  start live_ctx i running = elim (validate_input a.std i) [
    | some e ↦ (running, some (invalid_configuration e))
    | none ↦ elim running [ true ↦ (true, some concurrent_run) | false ↦ (true, none) ]
  ]

  abbrev first_error : Result (Unit {0}) → Option Error → Option Error
  first_error (err e) post = some e
  first_error (ok _) post = post

  -- The end of `run`: the error event, or the done event.
  unfoldable pub finish_run : Option Error → Session W → Session W
  finish_run (some e) s = (emit_error a "agent_loop" e s).0
  finish_run none s = elim (a.who.marshal_error (done_payload s.messages)) [
    | some e ↦ (emit_error a "done_event" e s).0
    | none ↦ (emit a EventType.done (done_payload s.messages) none s).0
  ]

  -- `run`; the flag is false behind it.
  unfoldable pub run : Input → Session W → Session W × Bool
  run i s =
      let (s₁, result) = execute_loop a i s in
      let (s₂, _, post) = trigger a.who post_loop (state_data s₁.messages) s₁ in
      (finish_run (first_error result post) s₂, false)

-- What callers of Run and the goroutines of runs do: a call, or the end of a run's goroutine.
pub data RunStep : Type 0 where
  calls : Context → Input → RunStep
  ends : RunStep

-- The flag `running`, and how many goroutines run `run`.
pub record Runs : Type 0 where
  pub running : Bool
  pub active : ℕ

module _ {W : Type 0} (a : Agent W) where
  abbrev pub started : Bool × Option Error → ℕ → Runs
  started (running, none) active = record { running = running; active = active + 1 }
  started (running, some e) active = record { running = running; active = active }

  -- A goroutine can end only where one runs.
  unfoldable pub run_step : RunStep → Runs → Runs
  run_step (calls c i) r = started (start a c i r.running) r.active
  run_step ends r = if r.active == 0 then r else record { running = false; active = r.active - 1 }

  unfoldable pub run_steps : List RunStep → Runs → Runs
  run_steps [] r = r
  run_steps (x ∷ xs) r = run_steps xs (run_step x r)
