-- ===== src/Core/Exec.antt =====
-- Methods of the agent: they change the session, and may return an error. What was changed before an
-- error stays changed.
use marx_agent.Prelude.{Option, none, some}
use marx_agent.Core.Error.{Error, Result, ok, err}
use marx_agent.Core.Session.{Session}

abbrev pub Exec : Type 0 → Type 0 → Type 0
Exec W A = Session W → Session W × Result A

module _ {W A : Type 0} where
  unfoldable pub pure : A → Exec W A
  pure a s = (s, ok a)

  unfoldable pub raise : Error → Exec W A
  raise e s = (s, err e)

  -- A result that was computed beside the session.
  unfoldable pub lift : Result A → Exec W A
  lift r s = (s, r)

module _ {W A B : Type 0} where
  abbrev pub continue : Session W × Result A → (A → Exec W B) → Session W × Result B
  continue (s, ok a) f = f a s
  continue (s, err e) f = (s, err e)

  infixl 10 ◌>>=◌ ◌>>◌
  unfoldable pub ◌>>=◌ : Exec W A → (A → Exec W B) → Exec W B
  unfolding pure raise lift
  ◌>>=◌ m f s = continue (m s) f

  abbrev pub ◌>>◌ : Exec W A → Exec W B → Exec W B
  m >> n = m >>= λ _. n

-- `if err != nil { return err }`
unfoldable pub check : {W : Type 0} → Option Error → Exec W (Unit {0})
unfolding raise pure
check none = pure tt
check (some e) = raise e
