-- ===== src/Core/Run/Terminal.antt =====
-- internal/core/loop.go, run: the event that ends a run.
use marx_agent.Prelude.{◌≡◌, sym, ap, ◌∙◌, Option, none, some, List, [], ◌∷◌, ◌++◌, arith}
use marx_agent.Core.Message.{Message, Input}
use marx_agent.Core.Error.{Error, post_loop, Result, ok, err}
use marx_agent.Core.Session.{
  Event, EventType, Payload, done_payload, error_payload, state_data, Session,
}
use marx_agent.Core.Hooks.{trigger}
use marx_agent.Core.Hooks.Effects.{trigger-Quiet}
use marx_agent.Core.Journal.{replay, Judged, Sourced}
use marx_agent.Core.Emit.{Agent, emit, emit_error, new_event}
use marx_agent.Core.Loop.{execute_loop}
use marx_agent.Core.Loop.Sourcing.{execute_loop-replay}
use marx_agent.Core.Run.{finish_run, run}

module _ {W : Type 0} (a : Agent W) where
  -- The last event on the bus.
  abbrev pub EndsWith : Event → Session W → Type 0
  EndsWith e s = (earlier : List Event) × (s.published ≡ earlier ++ e ∷ [])

  emit-EndsWith :
      (type : EventType) (payload : Payload) (error : Option Error) (s : Session W)
      → a.who.marshal_error payload ≡ none
      → (emit a type payload error s).0.published
        ≡ s.published ++ new_event a type payload error ∷ []
  unfolding emit
  emit-EndsWith type payload error s h = ground (arith)

  -- When the loop fails, the last event of the run is an error event that carries the loop's
  -- error, whatever the post-loop hooks do, provided that an error payload can be encoded.
  pub run_failed :
      (i : Input) (s : Session W) (e : Error)
      → a.who.marshal_error (error_payload "agent_loop" e) ≡ none
      → (execute_loop a i s).1 ≡ err e
      → EndsWith (new_event a EventType.error (error_payload "agent_loop" e) (some e)) (run a i s).0
  unfolding run finish_run emit_error
  run_failed i s e m h =
      let t = (execute_loop a i s).0 in
      let u = (trigger a.who post_loop (state_data t.messages) t).0 in
      rw h (u.published, emit-EndsWith _ _ _ u m)

  judged_ok : (P Q : Type 0) (r : Result (Unit {0})) → r ≡ ok tt → Judged r P Q → P
  judged_ok P Q (ok x) h j = j
  judged_ok P Q (err e) h j = ground (arith)

  finish_run_done :
      (u : Session W) (ms : List Message)
      → u.messages ≡ ms
      → a.who.marshal_error (done_payload ms) ≡ none
      → (finish_run a none u).published
        ≡ u.published ++ new_event a EventType.done (done_payload ms) none ∷ []
  unfolding finish_run emit
  finish_run_done u ms e m = ground (arith)

  loop_sources :
      (i : Input) (s : Session W)
      → (execute_loop a i s).1 ≡ ok tt
      → Sourced s (execute_loop a i s).0
  loop_sources i s h = judged_ok _ _ (execute_loop a i s).1 h (execute_loop-replay a i s)

  -- When the loop and the post-loop hooks succeed and the final state can be encoded, the last
  -- event of the run is a done event, and the messages that it carries are the messages before
  -- the run followed by the messages of the state changes that the run had published, in their
  -- order.
  pub run_done :
      (i : Input) (s : Session W)
      → (execute_loop a i s).1 ≡ ok tt
      → (trigger a.who post_loop
          (state_data (execute_loop a i s).0.messages)
          (execute_loop a i s).0).2
        ≡ none
      → a.who.marshal_error (done_payload (execute_loop a i s).0.messages) ≡ none
      → (earlier : List Event) × (told : List Message) × ((run a i s).0.published
          ≡ earlier ++ new_event a EventType.done (done_payload (s.messages ++ told)) none ∷ [])
        × (replay earlier ≡ replay s.published ++ told)
  unfolding run finish_run
  run_done i s h post m =
      let t = (execute_loop a i s).0 in
      let u = (trigger a.who post_loop (state_data t.messages) t).0 in
      let q = loop_sources i s h in
      let still = trigger-Quiet a.who post_loop (state_data t.messages) t in
      (
        u.published,
        q.added,
        rw (h, post)
            (finish_run_done u (s.messages ++ q.added) (still.messages_same ∙ q.messages_added)
              (ap (λ ms. a.who.marshal_error (done_payload ms)) (sym q.messages_added) ∙ m)),
        still.replay_same ∙ q.replay_added,
      )
