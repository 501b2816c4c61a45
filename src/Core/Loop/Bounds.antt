-- ===== src/Core/Loop/Bounds.antt =====
-- internal/core/loop.go: how often one run may ask the provider.
use marx_agent.Prelude.{
  ◌≡◌, refl, ap, ◌∙◌, Option, none, some, List, [], ◌∷◌, inl, inr, arith, ℕ, zero, suc, ◌+◌, ◌≤◌,
  length, length-append,
}
use marx_agent.Core.Message.{Message, Input}
use marx_agent.Core.Error.{Result, ok, err}
use marx_agent.Core.Session.{Payload, EventType, Session}
use marx_agent.Core.Journal.{Judged, Moves, Moves-bind, IsQuiet}
use marx_agent.Core.Exec.{Exec, pure, raise, continue, ◌>>=◌, ◌>>◌}
use marx_agent.Core.Accumulator.{empty_accumulator}
use marx_agent.Core.Emit.{Agent, emit, emit_state_change, emit_stream_completion}
use marx_agent.Core.Loop.{
  append_message, append_messages, keep_message, keep_assistant, emit_state_changes, turn, iterate,
  execute_loop, ask_provider, Next, again, stop, consume_stream, after_stream,
}
use marx_agent.Core.Loop.Steps
use marx_agent.Core.Loop.Journal.{emit-cases}
use marx_agent.Core.Loop.Moves.{IsLawful, quiet-Moves, after_stream-Moves}

-- The provider is not asked.
pub record Unasked {W : Type 0} (s t : Session W) : Type 0 where
  pub requests : t.requested ≡ s.requested

module _ {W : Type 0} where
  abbrev IsUnasked : {A : Type 0} → Exec W A → Type 0
  IsUnasked = Moves Unasked Unasked

  Unasked-at :
      {A : Type 0} (s t : Session W) (r : Result A)
      → t.requested ≡ s.requested
      → Judged r (Unasked s t) (Unasked s t)
  Unasked-at s t (ok x) h = record { requests = h }
  Unasked-at s t (err e) h = record { requests = h }

  Unasked-trans : (s t u : Session W) → Unasked s t → Unasked t u → Unasked s u
  Unasked-trans s t u p q = record { requests = q.requests ∙ p.requests }

  IsUnasked-bind :
      {A B : Type 0} (m : Exec W A) (f : A → Exec W B)
      → IsUnasked m
      → ((x : A) → IsUnasked (f x))
      → IsUnasked (m >>= f)
  IsUnasked-bind = Moves-bind Unasked-trans Unasked-trans

  module _ (a : Agent W) where
    emit-requested : (type : EventType) (payload : Payload) → IsUnasked (emit a type payload none)
    emit-requested type payload = record {
      at = λ s. elim (emit-cases a type payload s) [
        | inl (x, q) ↦ rw q (record { requests = refl })
        | inr (t, r, q, same, asked, told) ↦ rw q (Unasked-at s t r asked)
      ];
    }

    change-IsUnasked : (m : Message) → IsUnasked (emit_state_change a m)
    unfolding emit_state_change
    change-IsUnasked m = emit-requested _ _

    append-IsUnasked : (m : Message) → IsUnasked (append_message a m)
    unfolding append_message
    append-IsUnasked m = record { at = λ s. record { requests = refl } }

    keep_message-IsUnasked : (m : Message) → IsUnasked (keep_message a m)
    unfolding keep_message
    keep_message-IsUnasked m = IsUnasked-bind _ _ (append-IsUnasked m) (λ x. change-IsUnasked m)

    keep_assistant-IsUnasked : (m : Option Message) → IsUnasked (keep_assistant a m)
    unfolding keep_assistant emit_stream_completion
    keep_assistant-IsUnasked none = unfold pure in record { at = λ s. record { requests = refl } }
    keep_assistant-IsUnasked (some m) =
        IsUnasked-bind _ _ (append-IsUnasked m)
          λ x. IsUnasked-bind _ _ (emit-requested _ _) λ y. change-IsUnasked m

    changes-IsUnasked : (ms : List Message) → IsUnasked (emit_state_changes a ms)
    unfolding emit_state_changes
    changes-IsUnasked [] = unfold pure in record { at = λ s. record { requests = refl } }
    changes-IsUnasked (m ∷ ms) = IsUnasked-bind _ _ (change-IsUnasked m) λ x. changes-IsUnasked ms

    kept-IsUnasked :
        (ms : List Message) → IsUnasked (append_messages a ms >> emit_state_changes a ms)
    unfolding append_messages
    kept-IsUnasked ms =
        IsUnasked-bind _ _ (record { at = λ s. record { requests = refl } })
          λ x. changes-IsUnasked ms

    Unasked-IsLawful : IsLawful a Unasked Unasked
    Unasked-IsLawful = record {
      and_then = Unasked-trans;
      and_fail = Unasked-trans;
      of_quiet = λ s t q. record { requests = q.requests_same };
      failed = λ s t h. h;
      keep_message_moves = keep_message-IsUnasked;
      keep_assistant_moves = keep_assistant-IsUnasked;
      kept_moves = kept-IsUnasked;
    }

-- A method that asks the provider at most k times.
record Asks {W A : Type 0} (k : ℕ) (m : Exec W A) : Type 0 where
  count : (s : Session W) → length (m s).0.requested ≤ length s.requested + k

module _ {W : Type 0} where
  Unasked-count :
      {A : Type 0} (s t : Session W) (r : Result A)
      → Judged r (Unasked s t) (Unasked s t)
      → length t.requested ≤ length s.requested + 0
  Unasked-count s t (ok x) h = omega (arith, ap length h.requests)
  Unasked-count s t (err e) h = omega (arith, ap length h.requests)

  IsUnasked-Asks : {A : Type 0} (m : Exec W A) → IsUnasked m → Asks 0 m
  IsUnasked-Asks m h = record { count = λ s. Unasked-count s (m s).0 (m s).1 (h.at s) }

  Asks-bind :
      {A B : Type 0} (j k : ℕ) (m : Exec W A) (f : A → Exec W B)
      → Asks j m
      → ((x : A) → Asks k (f x))
      → Asks (j + k) (m >>= f)
  unfolding ◌>>=◌
  Asks-bind {A} j k m f h g = record { count = λ s. go s (m s).0 (m s).1 (h.count s) }
    where
      go :
          (s t : Session W) (r : Result A)
          → length t.requested ≤ length s.requested + j
          → length (continue (t, r) f).0.requested ≤ length s.requested + (j + k)
      go s t (ok x) b = omega (arith, (g x).count t)
      go s t (err e) b = omega arith

  Asks-weaken : {A : Type 0} (j k : ℕ) (m : Exec W A) → j ≤ k → Asks j m → Asks k m
  Asks-weaken j k m b h = record { count = λ s. omega (arith, h.count s) }

  Asks-after :
      {A B : Type 0} (k : ℕ) (m : Exec W A) (f : A → Exec W B)
      → Asks 0 m
      → ((x : A) → Asks k (f x))
      → Asks k (m >>= f)
  Asks-after k m f h g = Asks-weaken (0 + k) k _ (omega arith) (Asks-bind 0 k m f h g)

  module _ (a : Agent W) where
    quiet-Asks : {A : Type 0} (m : Exec W A) → IsQuiet m → Asks 0 m
    quiet-Asks m q = IsUnasked-Asks m (quiet-Moves (Unasked-IsLawful a) m q)

    turn-Asks : Asks 1 (turn a)
    unfolding turn ask_provider
    turn-Asks = Asks-after 1 _ _ (quiet-Asks _ (Steps.outside-IsQuiet a _)) λ x.
        Asks-after 1 _ _ (quiet-Asks _ (Steps.build_request-IsQuiet a)) λ r.
          Asks-after 1 _ _ (quiet-Asks _ (Steps.new_id-IsQuiet a)) λ id.
            Asks-bind 1 0 _ _
              (record { count = λ s. omega (arith, length-append s.requested (r ∷ [])) })
              λ arrivals. record {
                count = λ s.
                    let (t, acc, failed) = consume_stream a id arrivals empty_accumulator s in
                    omega (
                      arith,
                      ap length
                          (Steps.consume_stream-Quiet a id arrivals empty_accumulator
                            s).requests_same,
                      Unasked-count t (after_stream a r id acc failed t).0
                          (after_stream a r id acc failed t).1
                          ((after_stream-Moves (Unasked-IsLawful a) r id acc failed).at t),
                    );
              }

    go_on-Asks :
        (n : ℕ) (next : Next)
        → Asks n (iterate a n)
        → Asks {A = Unit {0}} n (elim next [ again ↦ iterate a n | stop ↦ pure tt ])
    unfolding pure
    go_on-Asks n again h = h
    go_on-Asks n stop h = record { count = λ s. omega arith }

    iterate-Asks : (n : ℕ) → Asks n (iterate a n)
    unfolding iterate raise
    iterate-Asks zero = record { count = λ s. omega arith }
    iterate-Asks (suc n) =
        Asks-weaken (1 + n) (suc n) _ (omega arith)
          (Asks-bind 1 n _ _ turn-Asks λ next. go_on-Asks n next (iterate-Asks n))

    -- One run asks the provider at most max_iterations times, however it ends.
    pub execute_loop-requests :
        (i : Input) (s : Session W)
        → length (execute_loop a i s).0.requested ≤ length s.requested + a.max_iterations
    unfolding execute_loop
    execute_loop-requests i s =
        (Asks-after a.max_iterations _ _ (quiet-Asks _ (Steps.ask-IsQuiet a _ _ _)) λ hooked.
            Asks-after a.max_iterations _ _ (quiet-Asks _ (Steps.check-IsQuiet a _)) λ x.
              Asks-after a.max_iterations _ _
                (quiet-Asks _ (Steps.new_user_message-IsQuiet a hooked))
                λ m.
                  Asks-after a.max_iterations _ _ (IsUnasked-Asks _ (keep_message-IsUnasked a m))
                    λ y. iterate-Asks a.max_iterations).count
          s
