-- ===== src/Core/Journal.antt =====
-- internal/core/event.go and state.go: the record of a session as its events tell it.

use marx_agent.Prelude.{List, [], ◌∷◌, ◌++◌, ◌≡◌, refl, append_assoc, append-nil, sym, ◌∙◌}
use marx_agent.Core.Message.{Message}
use marx_agent.Core.Error.{Error, Result, ok, err}
use marx_agent.Core.Session.{Payload, state_change_payload, Event, Session}
use marx_agent.Core.Exec.{Exec, pure, raise, continue, ◌>>=◌}

-- The message that a state change carries.
abbrev pub changed : Payload → List Message
changed (state_change_payload reason m) = m ∷ []
changed _ = []

-- The messages of the state changes among the events, oldest first: what a replay would append.
abbrev pub replay : List Event → List Message
replay [] = []
replay (e ∷ es) = changed e.payload ++ replay es

pub replay-append : (xs ys : List Event) → replay (xs ++ ys) ≡ replay xs ++ replay ys
replay-append [] ys = refl
replay-append (x ∷ xs) ys = simp (replay-append xs ys, append_assoc)

-- Nothing is appended, no state change is published, and the provider is not asked.
pub record Quiet {W : Type 0} (s t : Session W) : Type 0 where
  pub messages_same : t.messages ≡ s.messages
  pub replay_same : replay t.published ≡ replay s.published
  pub requests_same : t.requested ≡ s.requested

-- What was appended was published, in the same order.
pub record Sourced {W : Type 0} (s t : Session W) : Type 0 where
  pub added : List Message
  pub messages_added : t.messages ≡ s.messages ++ added
  pub replay_added : replay t.published ≡ replay s.published ++ added

-- What was published was appended, and what was appended behind it was not published.
pub record Ahead {W : Type 0} (s t : Session W) : Type 0 where
  pub told : List Message
  pub untold : List Message
  pub messages_added : t.messages ≡ s.messages ++ (told ++ untold)
  pub replay_told : replay t.published ≡ replay s.published ++ told

-- After a result `P`, after an error `Q`.
abbrev pub Judged {ℓ} : {A : Type 0} → Result A → Type ℓ → Type ℓ → Type ℓ
Judged (ok a) P Q = P
Judged (err e) P Q = Q

module _ {W : Type 0} where
  pub Quiet-refl : (s : Session W) → Quiet s s
  Quiet-refl s = record { messages_same = refl; replay_same = refl; requests_same = refl }

  pub Quiet-trans : {s t u : Session W} → Quiet s t → Quiet t u → Quiet s u
  Quiet-trans p q = record {
    messages_same = q.messages_same ∙ p.messages_same;
    replay_same = q.replay_same ∙ p.replay_same;
    requests_same = q.requests_same ∙ p.requests_same;
  }

  pub Quiet-Sourced : {s t : Session W} → Quiet s t → Sourced s t
  Quiet-Sourced q = record {
    added = [];
    messages_added = q.messages_same ∙ sym (append-nil _);
    replay_added = q.replay_same ∙ sym (append-nil _);
  }

  pub Sourced-Ahead : {s t : Session W} → Sourced s t → Ahead s t
  Sourced-Ahead p = record {
    told = p.added;
    untold = [];
    messages_added = simp append-nil p.messages_added;
    replay_told = p.replay_added;
  }

  pub Sourced-trans : {s t u : Session W} → Sourced s t → Sourced t u → Sourced s u
  Sourced-trans {s} p q = record {
    added = p.added ++ q.added;
    messages_added = simp (q.messages_added, p.messages_added, append_assoc);
    replay_added = simp (q.replay_added, p.replay_added, append_assoc);
  }

  pub Sourced-Ahead_trans : {s t u : Session W} → Sourced s t → Ahead t u → Ahead s u
  Sourced-Ahead_trans p q = record {
    told = p.added ++ q.told;
    untold = q.untold;
    messages_added = simp (q.messages_added, p.messages_added, append_assoc);
    replay_told = simp (q.replay_told, p.replay_added, append_assoc);
  }

  -- A method after which `P` holds of the sessions before and behind it, and `Q` behind an error.
  pub record Moves {A : Type 0} (P Q : Session W → Session W → Type 0) (m : Exec W A) : Type 0 where
    pub at : (s : Session W) → Judged (m s).1 (P s (m s).0) (Q s (m s).0)

  abbrev pub IsQuiet : {A : Type 0} → Exec W A → Type 0
  IsQuiet = Moves Quiet Quiet

  abbrev pub Journals : {A : Type 0} → Exec W A → Type 0
  Journals = Moves Sourced Ahead

module _ {W A B : Type 0} {P Q : Session W → Session W → Type 0}
    (and_then : (s t u : Session W) → P s t → P t u → P s u)
    (and_fail : (s t u : Session W) → P s t → Q t u → Q s u) where
  Judged-bind :
      (s t : Session W) (r : Result A) (f : A → Exec W B)
      → Judged r (P s t) (Q s t)
      → ((a : A) → Moves P Q (f a))
      → Judged (continue (t, r) f).1 (P s (continue (t, r) f).0) (Q s (continue (t, r) f).0)
  Judged-bind s t (err e) f h k = h
  Judged-bind s t (ok a) f h k = go (f a t).1 (f a t).0 ((k a).at t)
    where
      go : (r : Result B) (u : Session W) → Judged r (P t u) (Q t u) → Judged r (P s u) (Q s u)
      go (ok b) u j = and_then s t u h j
      go (err e) u j = and_fail s t u h j

  pub Moves-bind :
      (m : Exec W A) (f : A → Exec W B)
      → Moves P Q m
      → ((a : A) → Moves P Q (f a))
      → Moves P Q (m >>= f)
  unfolding ◌>>=◌
  Moves-bind m f h k = record { at = λ s. Judged-bind s (m s).0 (m s).1 f (h.at s) k }

module _ {W A B : Type 0} where
  pub IsQuiet-bind :
      (m : Exec W A) (f : A → Exec W B) → IsQuiet m → ((a : A) → IsQuiet (f a)) → IsQuiet (m >>= f)
  IsQuiet-bind = Moves-bind (λ s t u. Quiet-trans) (λ s t u. Quiet-trans)

  pub Journals-bind :
      (m : Exec W A) (f : A → Exec W B)
      → Journals m
      → ((a : A) → Journals (f a))
      → Journals (m >>= f)
  Journals-bind = Moves-bind (λ s t u. Sourced-trans) (λ s t u. Sourced-Ahead_trans)

module _ {W A : Type 0} where
  pub IsQuiet-Journals : (m : Exec W A) → IsQuiet m → Journals m
  IsQuiet-Journals m q = record { at = λ s. go s (m s).0 (m s).1 (q.at s) }
    where
      go :
          (s t : Session W) (r : Result A)
          → Judged r (Quiet s t) (Quiet s t)
          → Judged r (Sourced s t) (Ahead s t)
      go s t (ok a) j = Quiet-Sourced j
      go s t (err e) j = Sourced-Ahead (Quiet-Sourced j)

  pub IsQuiet-pure : (a : A) → IsQuiet {W = W} (pure a)
  unfolding pure
  IsQuiet-pure a = record { at = λ s. Quiet-refl s }

  pub IsQuiet-raise : (e : Error) → IsQuiet {W = W} {A = A} (raise e)
  unfolding raise
  IsQuiet-raise e = record { at = λ s. Quiet-refl s }
