-- ===== src/Core/Loop/Moves.antt =====
-- internal/core/loop.go: relations between sessions, carried from the small steps to a turn's end.
use marx_agent.Prelude.{String, Option, none, some, List, [], ◌∷◌}
use marx_agent.Core.Message.{ContentBlock, Message, ChatRequest, ToolResult}
use marx_agent.Core.Error.{Error, Result, ok, err}
use marx_agent.Core.Session.{Session}
use marx_agent.Core.Journal.{Quiet, Judged, Moves, IsQuiet, Moves-bind, IsQuiet-pure, IsQuiet-raise}
use marx_agent.Core.Exec.{Exec, check, ◌>>=◌, ◌>>◌}
use marx_agent.Core.Accumulator.{Accumulator}
use marx_agent.Core.Emit.{Agent}
use marx_agent.Core.Tools.{run_tools}
use marx_agent.Core.Loop.{
  append_messages, emit_state_changes, keep_results, join, join_error, with_error, keep_partial,
  answer_calls, handle_calls, finish_turn, keep_incomplete, after_stream, again, stop, keep_message,
  keep_assistant,
}
use marx_agent.Core.Loop.Steps
use marx_agent.Core.Loop.Journal.{run_tools-Quiet}

-- What has to be shown of the small steps.
pub record IsLawful {W : Type 0} (a : Agent W) (P Q : Session W → Session W → Type 0) : Type 1 where
  pub and_then : (s t u : Session W) → P s t → P t u → P s u
  pub and_fail : (s t u : Session W) → P s t → Q t u → Q s u
  pub of_quiet : (s t : Session W) → Quiet s t → P s t
  pub failed : (s t : Session W) → P s t → Q s t
  pub keep_message_moves : (m : Message) → Moves P Q (keep_message a m)
  pub keep_assistant_moves : (m : Option Message) → Moves P Q (keep_assistant a m)
  pub kept_moves : (ms : List Message) → Moves P Q (append_messages a ms >> emit_state_changes a ms)

module _ {W : Type 0} {a : Agent W} {P Q : Session W → Session W → Type 0}
    (law : IsLawful a P Q) where
  pub unmoved : {A : Type 0} (s t : Session W) (r : Result A) → P s t → Judged r (P s t) (Q s t)
  unmoved s t (ok x) h = h
  unmoved s t (err e) h = law.failed s t h

  pub lawful_then :
      {A : Type 0} (s t u : Session W) (r : Result A)
      → Quiet s t
      → Judged r (P t u) (Q t u)
      → Judged r (P s u) (Q s u)
  lawful_then s t u (ok x) q h = law.and_then s t u (law.of_quiet s t q) h
  lawful_then s t u (err e) q h = law.and_fail s t u (law.of_quiet s t q) h

  pub bind-Moves :
      {A B : Type 0} (m : Exec W A) (f : A → Exec W B)
      → Moves P Q m
      → ((x : A) → Moves P Q (f x))
      → Moves P Q (m >>= f)
  bind-Moves = Moves-bind law.and_then law.and_fail

  pub quiet-Moves : {A : Type 0} (m : Exec W A) → IsQuiet m → Moves P Q m
  quiet-Moves m q = record {
    at = λ s. unmoved s (m s).0 (m s).1 (law.of_quiet s (m s).0 (Steps.Quiet-of m q s));
  }

  join_error-Moves :
      (e : Error) (m : Exec W (Unit {0})) → Moves P Q m → Moves P Q (join_error a e m)
  unfolding join_error
  join_error-Moves e m h = record { at = λ s. go s (m s).0 (m s).1 (h.at s) }
    where
      go :
          (s t : Session W) (r : Result (Unit {0}))
          → Judged r (P s t) (Q s t)
          → Judged (join a e r) (P s t) (Q s t)
      go s t (ok x) j = j
      go s t (err x) j = j

  keep_results-Moves : (rs : List ToolResult) → Moves P Q (keep_results a rs)
  unfolding keep_results
  keep_results-Moves [] = quiet-Moves _ (IsQuiet-pure tt)
  keep_results-Moves (r ∷ rs) =
      bind-Moves _ _ (quiet-Moves _ (Steps.emit_tool_results-IsQuiet a (r ∷ rs))) λ x.
        bind-Moves _ _ (quiet-Moves _ (Steps.tool_result_messages-IsQuiet a (r ∷ rs)))
          λ ms. law.kept_moves ms

  with_error-Moves :
      (e : Option Error) (m : Exec W (Unit {0})) → Moves P Q m → Moves P Q (with_error a e m)
  with_error-Moves none m h = h
  with_error-Moves (some e) m h = join_error-Moves e m h

  answer_calls-Moves : (calls : List ContentBlock) → Moves P Q (answer_calls a calls)
  unfolding answer_calls
  answer_calls-Moves calls = record {
    at = λ s.
        let (t, results, failed) = run_tools a calls s in
        let rest = with_error a failed (keep_results a results) >> check failed in
        lawful_then s t (rest t).0 (rest t).1 (run_tools-Quiet a calls s) (
          (bind-Moves _ _ (with_error-Moves failed _ (keep_results-Moves results))
              (λ x. quiet-Moves _ (Steps.check-IsQuiet a failed))).at
            t);
  }

  handle_calls-Moves :
      (id : String) (calls : List ContentBlock) → Moves P Q (handle_calls a id calls)
  unfolding handle_calls
  handle_calls-Moves id [] = quiet-Moves _ (IsQuiet-pure stop)
  handle_calls-Moves id (c ∷ cs) =
      bind-Moves _ _ (quiet-Moves _ (Steps.ask-IsQuiet a _ _ _)) λ accepted.
        bind-Moves _ _ (quiet-Moves _ (Steps.check-IsQuiet a _)) λ x.
          bind-Moves _ _ (quiet-Moves _ (Steps.emit_tool_calls-IsQuiet a id _))
            λ y. bind-Moves _ _ (answer_calls-Moves _) λ z. quiet-Moves _ (IsQuiet-pure again)

  finish_turn-Moves :
      (r : ChatRequest) (id : String) (acc : Accumulator) → Moves P Q (finish_turn a r id acc)
  unfolding finish_turn
  finish_turn-Moves r id acc =
      bind-Moves _ _ (quiet-Moves _ (Steps.take_message-IsQuiet a acc id)) λ kept.
        bind-Moves _ _ (law.keep_assistant_moves kept) λ x.
          bind-Moves _ _ (quiet-Moves _ (Steps.ask-IsQuiet a _ _ _)) λ y. handle_calls-Moves _ _

  incomplete-Moves : (e : Error) (kept : Option Message) → Moves P Q (keep_partial a e kept)
  unfolding keep_partial
  incomplete-Moves e none = quiet-Moves _ (IsQuiet-raise e)
  incomplete-Moves e (some m) =
      bind-Moves _ _ (join_error-Moves e _ (law.keep_message_moves _))
        λ x. quiet-Moves _ (IsQuiet-raise e)

  pub after_stream-Moves :
      (r : ChatRequest) (id : String) (acc : Accumulator) (failed : Option Error)
      → Moves P Q (after_stream a r id acc failed)
  unfolding after_stream keep_incomplete
  after_stream-Moves r id acc none = finish_turn-Moves r id acc
  after_stream-Moves r id acc (some e) =
      bind-Moves _ _
        (bind-Moves _ _ (quiet-Moves _ (Steps.take_message-IsQuiet a acc id))
          λ kept. incomplete-Moves e kept)
        λ x. quiet-Moves _ (IsQuiet-raise e)
