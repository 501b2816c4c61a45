-- ===== src/Core/Loop/Journal.antt =====
-- internal/core/loop.go: the messages of a session beside the state changes that it publishes.
use marx_agent.Prelude.{
  ◌≡◌, refl, sym, ◌∙◌, Option, none, some, List, [], ◌∷◌, ◌++◌, ◌⊎◌, inl, inr, arith, append-nil,
  append_assoc, ℕ, Option-cases,
}
use marx_agent.Core.Message.{ContentBlock, Message, ToolResult}
use marx_agent.Core.Error.{Error, HookType, Result, ok, err}
use marx_agent.Core.Session.{
  Event, Payload, EventType, state_change_payload, invocation_data, results_data, result_data,
  Session,
}
use marx_agent.Core.Journal.{
  replay, replay-append, Quiet, Quiet-refl, Sourced, Ahead, Judged, Journals, IsQuiet-Journals,
  IsQuiet-pure,
}
use marx_agent.Core.Hooks.{trigger}
use marx_agent.Core.Hooks.Effects.{trigger-Quiet}
use marx_agent.Core.Exec.{pure, continue, ◌>>=◌}
use marx_agent.Core.Emit.{
  Agent, emit, new_event, emit_state_change, state_change_reason, emit_stream_completion,
}
use marx_agent.Core.Tools.{prepare, settle, finish_tools, run_tools, invocation_of}
use marx_agent.Core.Loop.{append_message, keep_message, keep_assistant, emit_state_changes}
use marx_agent.Core.Loop.Steps

module _ {W : Type 0} (a : Agent W) where
  prepare-Quiet : (calls : List ContentBlock) (s : Session W) → Quiet s (prepare a calls s).0
  unfolding prepare
  prepare-Quiet [] s = Quiet-refl s
  prepare-Quiet (c ∷ cs) s =
      let asked = invocation_data (invocation_of a c) in
      let first = trigger-Quiet a.who HookType.pre_tool_exec asked s in
      ground (
        arith,
        first,
        prepare-Quiet cs s,
        prepare-Quiet cs (trigger a.who HookType.pre_tool_exec asked s).0,
      )

  settle-Quiet : (rs : List ToolResult) (s : Session W) → Quiet s (settle a rs s).0
  unfolding settle
  settle-Quiet [] s = Quiet-refl s
  settle-Quiet (r ∷ rs) s = ground (
    arith,
    trigger-Quiet a.who HookType.tool_result (result_data r) s,
    settle-Quiet rs (trigger a.who HookType.tool_result (result_data r) s).0,
  )

  finish_tools-Quiet :
      (n : ℕ) (rs : List ToolResult) (s : Session W) → Quiet s (finish_tools a n rs s).0
  unfolding finish_tools
  finish_tools-Quiet n rs s =
      grind (arith, settle-Quiet, trigger-Quiet a.who HookType.post_tool_exec (results_data rs) s)

  pub run_tools-Quiet :
      (calls : List ContentBlock) (s : Session W) → Quiet s (run_tools a calls s).0
  unfolding run_tools
  run_tools-Quiet calls s = grind (arith, finish_tools-Quiet, prepare-Quiet calls s)

  -- The message was published, and nothing else changed.
  record Told (m : Message) (s t : Session W) : Type 0 where
    messages_same : t.messages ≡ s.messages
    replay_one : replay t.published ≡ replay s.published ++ m ∷ []
    requests_same : t.requested ≡ s.requested

  -- An event that cannot be encoded goes nowhere; any other is published, whether or not the
  -- channel takes it.
  pub emit-cases :
      (type : EventType) (payload : Payload) (s : Session W)
      → ((x : Error) × (emit a type payload none s ≡ (s, err x)))
        ⊎ ((t : Session W) × (r : Result (Unit {0})) × (emit a type payload none s ≡ (t, r))
            × (t.messages ≡ s.messages)
            × (t.requested ≡ s.requested)
            × (t.published ≡ s.published ++ new_event a type payload none ∷ []))
  unfolding emit
  emit-cases type payload s =
      let event = new_event a type payload none in
      let published : List Event = s.published ++ event ∷ [] in
      let (w, refused) = a.send event s.world in
      elim (Option-cases (a.who.marshal_error payload)) [
        | inr (x, q) ↦ inl (x, ground arith)
        | inl q ↦ elim (Option-cases refused) [
          | inr (x, k) ↦
              inr (
                record s { published = published; world = w },
                err x,
                ground arith,
                refl,
                refl,
                refl,
              )
          | inl k ↦ inr (
            record s { published = published; delivered = s.delivered ++ event ∷ []; world = w },
            ok tt,
            ground arith,
            refl,
            refl,
            refl,
          )
        ]
      ]

  Judged-Told :
      (m : Message) (s t : Session W) (r : Result (Unit {0}))
      → Told m s t
      → Judged r (Told m s t) (Told m s t ⊎ Quiet s t)
  Judged-Told m s t (ok x) h = h
  Judged-Told m s t (err e) h = inl h

  emit_state_change-Told :
      (m : Message) (s : Session W)
      → Judged
          (emit_state_change a m s).1
          (Told m s (emit_state_change a m s).0)
          (Told m s (emit_state_change a m s).0 ⊎ Quiet s (emit_state_change a m s).0)
  unfolding emit_state_change
  emit_state_change-Told m s =
      elim (emit-cases EventType.state_change (state_change_payload (state_change_reason m) m) s) [
        | inl (x, q) ↦ rw q (inr (Quiet-refl s))
        | inr (t, r, q, same, asked, told) ↦ rw q (
            Judged-Told m s t r (record {
              messages_same = same;
              replay_one = rw told (
                  replay-append s.published (
                    new_event a EventType.state_change
                      (state_change_payload (state_change_reason m) m) none
                    ∷ []));
              requests_same = asked;
            }))
      ]

  Judged-keep :
      (m : Message) (s t u : Session W) (r : Result (Unit {0}))
      → t.messages ≡ s.messages ++ m ∷ []
      → replay t.published ≡ replay s.published
      → Judged r (Told m t u) (Told m t u ⊎ Quiet t u)
      → Judged r (Sourced s u) (Ahead s u)
  Judged-keep m s t u (ok x) p q h = record {
    added = m ∷ [];
    messages_added = h.messages_same ∙ p;
    replay_added = rw (h.replay_one, q);
  }
  Judged-keep m s t u (err e) p q (inl h) = record {
    told = m ∷ [];
    untold = [];
    messages_added = h.messages_same ∙ p;
    replay_told = rw (h.replay_one, q);
  }
  Judged-keep m s t u (err e) p q (inr h) = record {
    told = [];
    untold = m ∷ [];
    messages_added = h.messages_same ∙ p;
    replay_told = h.replay_same ∙ q ∙ sym (append-nil _);
  }

  pub keep_message-Journals : (m : Message) → Journals (keep_message a m)
  unfolding keep_message append_message ◌>>=◌
  keep_message-Journals m = record {
    at = λ s.
        let t : Session W = record s { messages = s.messages ++ m ∷ [] } in
        Judged-keep m s t (emit_state_change a m t).0 (emit_state_change a m t).1 refl refl
          (emit_state_change-Told m t);
  }

  keep_after :
      (m : Message) (s t : Session W) (r : Result (Unit {0}))
      → t.messages ≡ s.messages ++ m ∷ []
      → replay t.published ≡ replay s.published
      → let (u, r') = continue (t, r) (λ _. emit_state_change a m) in
        Judged r' (Sourced s u) (Ahead s u)
  keep_after m s t (ok x) p q =
      Judged-keep m s t (emit_state_change a m t).0 (emit_state_change a m t).1 p q
        (emit_state_change-Told m t)
  keep_after m s t (err e) p q = record {
    told = [];
    untold = m ∷ [];
    messages_added = p;
    replay_told = q ∙ sym (append-nil _);
  }

  -- The assistant's message, with the end of the stream announced in between.
  pub keep_assistant-Journals : (m : Option Message) → Journals (keep_assistant a m)
  unfolding keep_assistant append_message ◌>>=◌
  keep_assistant-Journals none = IsQuiet-Journals _ (IsQuiet-pure tt)
  keep_assistant-Journals (some m) = record {
    at = λ s.
        let t : Session W = record s { messages = s.messages ++ m ∷ [] } in
        let quiet = Steps.Quiet-of _ (Steps.emit_stream_completion-IsQuiet a m.id) t in
        keep_after m s (emit_stream_completion a m.id t).0 (emit_stream_completion a m.id t).1
          quiet.messages_same quiet.replay_same;
  }

  changes-next :
      (told : List Message) (m : Message) (ms : List Message) (s t u : Session W)
      (r : Result (Unit {0}))
      → t.messages ≡ s.messages ++ (told ++ m ∷ ms)
      → replay t.published ≡ replay s.published ++ told
      → Judged r (Told m t u) (Told m t u ⊎ Quiet t u)
      → ((v : Session W) (r' : Result (Unit {0}))
          → v.messages ≡ s.messages ++ ((told ++ m ∷ []) ++ ms)
          → replay v.published ≡ replay s.published ++ (told ++ m ∷ [])
          → let (x, r'') = continue (v, r') (λ _. emit_state_changes a ms) in
            Judged r'' (Sourced s x) (Ahead s x))
      → let (x, r'') = continue (u, r) (λ _. emit_state_changes a ms) in
        Judged r'' (Sourced s x) (Ahead s x)
  changes-next told m ms s t u (ok x) p q h rest =
      rest u (ok x) (simp append_assoc (h.messages_same ∙ p)) (simp (h.replay_one, q, append_assoc))
  changes-next told m ms s t u (err e) p q (inl h) rest =
      rest u (err e) (simp append_assoc (h.messages_same ∙ p))
        (simp (h.replay_one, q, append_assoc))
  changes-next told m ms s t u (err e) p q (inr h) rest = record {
    told = told;
    untold = m ∷ ms;
    messages_added = h.messages_same ∙ p;
    replay_told = h.replay_same ∙ q;
  }

  pub changes-from :
      (told ms : List Message) (s t : Session W) (r : Result (Unit {0}))
      → t.messages ≡ s.messages ++ (told ++ ms)
      → replay t.published ≡ replay s.published ++ told
      → let (u, r') = continue (t, r) (λ _. emit_state_changes a ms) in
        Judged r' (Sourced s u) (Ahead s u)
  unfolding emit_state_changes pure ◌>>=◌
  changes-from told ms s t (err e) p q = record {
    told = told;
    untold = ms;
    messages_added = p;
    replay_told = q;
  }
  changes-from told [] s t (ok x) p q = record {
    added = told;
    messages_added = p ∙ simp append-nil;
    replay_added = q;
  }
  changes-from told (m ∷ ms) s t (ok x) p q =
      changes-next told m ms s t (emit_state_change a m t).0 (emit_state_change a m t).1 p q
        (emit_state_change-Told m t) (changes-from (told ++ m ∷ []) ms s)
