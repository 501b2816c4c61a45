-- ===== src/Core/Loop/Sourcing.antt =====
-- internal/core/loop.go: the events of a run beside its messages.
use marx_agent.Prelude.{refl, sym, List, [], ◌++◌, append-nil, ℕ, zero, suc}
use marx_agent.Core.Message.{Message, Input, ChatRequest}
use marx_agent.Core.Error.{ok, max_iterations}
use marx_agent.Core.Session.{Session}
use marx_agent.Core.Journal.{
  Sourced, Ahead, Judged, Journals, Journals-bind, IsQuiet-Journals, IsQuiet-pure, IsQuiet-raise,
  Sourced-Ahead, Sourced-Ahead_trans, Quiet-Sourced, Sourced-trans,
}
use marx_agent.Core.Exec.{pure, ◌>>=◌, ◌>>◌}
use marx_agent.Core.Accumulator.{empty_accumulator}
use marx_agent.Core.Emit.{Agent}
use marx_agent.Core.Loop.{
  append_messages, emit_state_changes, after_stream, ask_provider, turn, iterate, execute_loop,
  Next, again, stop, consume_stream,
}
use marx_agent.Core.Loop.Steps
use marx_agent.Core.Loop.Moves.{IsLawful, unmoved, lawful_then, after_stream-Moves}
use marx_agent.Core.Loop.Journal.{keep_message-Journals, keep_assistant-Journals, changes-from}

module _ {W : Type 0} (a : Agent W) where
  kept-Journals : (ms : List Message) → Journals (append_messages a ms >> emit_state_changes a ms)
  unfolding append_messages ◌>>=◌
  kept-Journals ms = record {
    at = λ s.
        changes-from a [] ms s (record s { messages = s.messages ++ ms }) (ok tt) refl
          (sym (append-nil _));
  }

  Sourced-IsLawful : IsLawful a Sourced Ahead
  Sourced-IsLawful = record {
    and_then = λ s t u. Sourced-trans;
    and_fail = λ s t u. Sourced-Ahead_trans;
    of_quiet = λ s t. Quiet-Sourced;
    failed = λ s t. Sourced-Ahead;
    keep_message_moves = keep_message-Journals a;
    keep_assistant_moves = keep_assistant-Journals a;
    kept_moves = kept-Journals;
  }

  ask_provider-Journals : (r : ChatRequest) → Journals (ask_provider a r)
  unfolding ask_provider
  ask_provider-Journals r = record {
    at = λ s. unmoved Sourced-IsLawful s (ask_provider a r s).0 (ask_provider a r s).1 (record {
      messages_added = sym (append-nil _);
      replay_added = sym (append-nil _);
      added = [];
    });
  }

  turn-Journals : Journals (turn a)
  unfolding turn
  turn-Journals = Journals-bind _ _ (IsQuiet-Journals _ (Steps.outside-IsQuiet a _)) λ x.
      Journals-bind _ _ (IsQuiet-Journals _ (Steps.build_request-IsQuiet a)) λ r.
        Journals-bind _ _ (IsQuiet-Journals _ (Steps.new_id-IsQuiet a)) λ id.
          Journals-bind _ _ (ask_provider-Journals r) λ arrivals. record {
            at = λ s.
                let (t, acc, failed) = consume_stream a id arrivals empty_accumulator s in
                lawful_then Sourced-IsLawful s t (after_stream a r id acc failed t).0
                  (after_stream a r id acc failed t).1
                  (Steps.consume_stream-Quiet a id arrivals empty_accumulator s)
                  ((after_stream-Moves Sourced-IsLawful r id acc failed).at t);
          }

  go_on :
      (n : ℕ) (next : Next)
      → Journals (iterate a n)
      → Journals {A = Unit {0}} (elim next [ again ↦ iterate a n | stop ↦ pure tt ])
  go_on n again h = h
  go_on n stop h = IsQuiet-Journals _ (IsQuiet-pure tt)

  iterate-Journals : (n : ℕ) → Journals (iterate a n)
  unfolding iterate
  iterate-Journals zero = IsQuiet-Journals _ (IsQuiet-raise max_iterations)
  iterate-Journals (suc n) =
      Journals-bind _ _ turn-Journals λ next. go_on n next (iterate-Journals n)

  execute_loop-Journals : (i : Input) → Journals (execute_loop a i)
  unfolding execute_loop
  execute_loop-Journals i =
      Journals-bind _ _ (IsQuiet-Journals _ (Steps.ask-IsQuiet a _ _ _)) λ hooked.
        Journals-bind _ _ (IsQuiet-Journals _ (Steps.check-IsQuiet a _)) λ x.
          Journals-bind _ _ (IsQuiet-Journals _ (Steps.new_user_message-IsQuiet a hooked)) λ m.
            Journals-bind _ _ (keep_message-Journals a m) λ y. iterate-Journals a.max_iterations

  -- However executeLoop ends, a replay of the state changes that it published appends the
  -- messages that it appended, in their order: all of them if it returns no error, and otherwise
  -- all but those behind the last one that was published.
  pub execute_loop-replay :
      (i : Input) (s : Session W)
      → Judged
          (execute_loop a i s).1
          (Sourced s (execute_loop a i s).0)
          (Ahead s (execute_loop a i s).0)
  execute_loop-replay i s = (execute_loop-Journals i).at s
