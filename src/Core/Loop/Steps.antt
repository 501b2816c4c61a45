-- ===== src/Core/Loop/Steps.antt =====
-- internal/core/loop.go: the steps of a turn that neither append a message nor publish a change.
use marx_agent.Prelude.{
  ◌≡◌, refl, String, false, Option, none, some, List, [], ◌∷◌, arith, append-nil,
}
use marx_agent.Core.Message.{ContentBlock, Message, Input, StreamChunk, ToolResult}
use marx_agent.Core.Error.{Error, HookType, Result, ok, err}
use marx_agent.Core.Session.{HookData, Payload, EventType, Session}
use marx_agent.Core.Journal.{
  changed, replay, replay-append, Quiet, Quiet-refl, Judged, IsQuiet, IsQuiet-bind, IsQuiet-pure,
  IsQuiet-raise,
}
use marx_agent.Core.Hooks.Effects.{trigger-Quiet}
use marx_agent.Core.Exec.{Exec, check}
use marx_agent.Core.Accumulator.{Accumulator, message, add}
use marx_agent.Core.Emit.{
  Agent, Arrival, chunk, cancelled, outside, emit, new_event, emit_partial, emit_stream_completion,
  emit_tool_calls, emit_tool_results,
}
use marx_agent.Core.Loop.{
  clock, new_id, ask, new_user_message, build_request, consume_stream, stamped, take_message,
  tool_result_messages,
}

-- The session of a method is quiet, whatever its result.
both : {A P : Type 0} (r : Result A) → P → Judged r P P
both (ok a) p = p
both (err e) p = p

pub Quiet-at : {W A : Type 0} (m : Exec W A) → ((s : Session W) → Quiet s (m s).0) → IsQuiet m
Quiet-at m h = record { at = λ s. both (m s).1 (h s) }

pub Quiet-of : {W A : Type 0} (m : Exec W A) → IsQuiet m → (s : Session W) → Quiet s (m s).0
Quiet-of {A} m q s = same (m s).1 (q.at s)
  where
    same : (r : Result A) → Judged r (Quiet s (m s).0) (Quiet s (m s).0) → Quiet s (m s).0
    same (ok x) j = j
    same (err e) j = j

module _ {W : Type 0} (a : Agent W) where
  pub outside-IsQuiet : {A : Type 0} (f : W → W × Result A) → IsQuiet (outside f)
  unfolding outside
  outside-IsQuiet f =
      Quiet-at _ (λ s. record { messages_same = refl; replay_same = refl; requests_same = refl })

  -- Any event but a state change.
  pub emit-IsQuiet :
      (type : EventType) (payload : Payload) (e : Option Error)
      → changed payload ≡ []
      → IsQuiet (emit a type payload e)
  unfolding emit
  emit-IsQuiet type payload e p = Quiet-at _ λ s. ground (
    arith,
    replay-append s.published (new_event a type payload e ∷ []),
    append-nil (replay s.published),
  )

  pub ask-IsQuiet :
      {A : Type 0} (t : HookType) (value : HookData) (as_answer : HookData → Option A)
      → IsQuiet (ask a t value as_answer)
  unfolding ask
  ask-IsQuiet t value as_answer = Quiet-at _ λ s. ground (arith, trigger-Quiet a.who t value s)

  pub clock-IsQuiet : IsQuiet (clock a)
  unfolding clock
  clock-IsQuiet = outside-IsQuiet _

  pub new_id-IsQuiet : IsQuiet (new_id a)
  unfolding new_id
  new_id-IsQuiet = outside-IsQuiet _

  pub check-IsQuiet : (e : Option Error) → IsQuiet {W = W} (check e)
  unfolding check
  check-IsQuiet none = IsQuiet-pure tt
  check-IsQuiet (some e) = IsQuiet-raise e

  pub new_user_message-IsQuiet : (i : Input) → IsQuiet (new_user_message a i)
  unfolding new_user_message
  new_user_message-IsQuiet i =
      IsQuiet-bind _ _ new_id-IsQuiet λ id. IsQuiet-bind _ _ clock-IsQuiet λ time. IsQuiet-pure _

  pub build_request-IsQuiet : IsQuiet (build_request a)
  unfolding build_request
  build_request-IsQuiet =
      Quiet-at _ λ s. Quiet-of _ (IsQuiet-bind _ _ (ask-IsQuiet _ _ _) λ r. ask-IsQuiet _ _ _) s

  stamped-IsQuiet :
      (acc : Accumulator) (id : String) (m : Option Message) → IsQuiet (stamped a acc id m)
  unfolding stamped
  stamped-IsQuiet acc id none = IsQuiet-pure none
  stamped-IsQuiet acc id (some m) = IsQuiet-bind _ _ clock-IsQuiet λ time. IsQuiet-pure _

  pub take_message-IsQuiet : (acc : Accumulator) (id : String) → IsQuiet (take_message a acc id)
  unfolding take_message
  take_message-IsQuiet acc id = stamped-IsQuiet acc id (message acc id false 0)

  pub tool_result_messages-IsQuiet : (rs : List ToolResult) → IsQuiet (tool_result_messages a rs)
  unfolding tool_result_messages
  tool_result_messages-IsQuiet [] = IsQuiet-pure []
  tool_result_messages-IsQuiet (r ∷ rs) = IsQuiet-bind _ _ new_id-IsQuiet λ id.
      IsQuiet-bind _ _ clock-IsQuiet
        λ time. IsQuiet-bind _ _ (tool_result_messages-IsQuiet rs) λ rest. IsQuiet-pure _

  pub emit_partial-IsQuiet : (id : String) (c : StreamChunk Error) → IsQuiet (emit_partial a id c)
  unfolding emit_partial
  emit_partial-IsQuiet id c = emit-IsQuiet _ _ _ refl

  pub emit_stream_completion-IsQuiet : (id : String) → IsQuiet (emit_stream_completion a id)
  unfolding emit_stream_completion
  emit_stream_completion-IsQuiet id = emit-IsQuiet _ _ _ refl

  pub emit_tool_calls-IsQuiet :
      (id : String) (cs : List ContentBlock) → IsQuiet (emit_tool_calls a id cs)
  unfolding emit_tool_calls
  emit_tool_calls-IsQuiet id cs = emit-IsQuiet _ _ _ refl

  pub emit_tool_results-IsQuiet : (rs : List ToolResult) → IsQuiet (emit_tool_results a rs)
  unfolding emit_tool_results
  emit_tool_results-IsQuiet rs = emit-IsQuiet _ _ _ refl

  pub consume_stream-Quiet :
      (id : String) (arrivals : List Arrival) (acc : Accumulator) (s : Session W)
      → Quiet s (consume_stream a id arrivals acc s).0
  unfolding consume_stream
  consume_stream-Quiet id [] acc s = Quiet-refl s
  consume_stream-Quiet id (cancelled e ∷ arrivals) acc s = Quiet-refl s
  consume_stream-Quiet id (chunk c ∷ arrivals) acc s =
      let sent = Quiet-of _ (emit_partial-IsQuiet id c) s in
      let (acc', refused) = add a.std c acc in
      ground (arith, sent, consume_stream-Quiet id arrivals acc' (emit_partial a id c s).0)
