-- ===== src/Subagent/Collect.antt =====
-- internal/engine/subagent/state.go: Take, as one action on the broker: nobody else sends to or reads
-- from the mailbox between its reads.
pub mod Taken
mod Tests
use marx_agent.Prelude.{
  ℕ, zero, suc, Bool, true, false, ◌||◌, String, Option, none, some, List, [], ◌∷◌, ◌==◌, length,
  str_eq, if◌then◌else◌,
}
use marx_agent.Prelude.Int.{ℤ, pos, negsuc}
use marx_agent.Subagent.Mailbox.{Message, Mailbox, receive}
use marx_agent.Subagent.Broker.{Broker, find_mailbox}

-- What Take reads of its context.
pub data Context : Type 0 where
  nil : Context
  cancelled : Context
  live : Context

pub data TakeError : Type 0 where
  nil_context : TakeError
  context_done : TakeError
  not_allowed : TakeError
  no_broker : TakeError
  no_mailbox : TakeError
  negative_limit : TakeError

-- `out_of_range` is the panic of `make`.
pub data Took : Type 0 where
  out_of_range : Took
  took : List Message → Took
  refused : TakeError → Took

-- The loop over the limit, which ends early at an empty mailbox.
unfoldable pub receive_up_to : ℕ → Mailbox → Mailbox × List Message
receive_up_to zero box = (box, [])
receive_up_to (suc n) box =
    let (box', got) = receive box in
    let (left, more) = receive_up_to n box' in
    elim got [ none ↦ (box', []) | some m ↦ (left, m ∷ more) ]

-- The mailbox that the broker holds for the agent, as it is after an operation on it.
unfoldable pub put_mailbox : String → Mailbox → List (String × Mailbox) → List (String × Mailbox)
put_mailbox agent box [] = []
put_mailbox agent box ((key, old) ∷ rest) =
    let rest' = put_mailbox agent box rest in
    if str_eq agent key then (key, box) ∷ rest else (key, old) ∷ rest'

-- How many messages a limit allows: 0 is all that wait.
abbrev pub allowed : ℕ → Mailbox → ℕ
allowed n box = if n == 0 then length box.waiting else n

-- `fits` is whether the runtime makes a slice with room for that many messages: `make` panics at a
-- capacity that is out of its range.
module _ (fits : ℕ → Bool) where
  unfoldable pub take_found : String → ℕ → Broker → Mailbox → Broker × Took
  take_found agent n b box =
      let (box', taken) = receive_up_to n box in
      if fits n
      then (record b { mailboxes = put_mailbox agent box' b.mailboxes }, took taken)
      else (b, out_of_range)

  abbrev pub take_from : String → ℤ → Broker → Option Mailbox → Broker × Took
  take_from agent limit b none = (b, refused no_mailbox)
  take_from agent (negsuc n) b (some box) = (b, refused negative_limit)
  take_from agent (pos n) b (some box) = take_found agent (allowed n box) b box

  abbrev pub take_with_broker : String → ℤ → Option Broker → Option Broker × Took
  take_with_broker agent limit none = (none, refused no_broker)
  take_with_broker agent limit (some b) =
      let (b', out) = take_from agent limit b (find_mailbox agent b.mailboxes) in (some b', out)

  -- Take: the context, the main core of the pool, the caller, the agent whose messages they are, the
  -- limit and the broker of the pool, where it has one.
  unfoldable pub take_messages :
      Context → String → String → String → ℤ → Option Broker → Option Broker × Took
  take_messages nil main by agent limit b = (b, refused nil_context)
  take_messages cancelled main by agent limit b = (b, refused context_done)
  take_messages live main by agent limit b =
      if str_eq by main || str_eq by agent
      then take_with_broker agent limit b
      else (b, refused not_allowed)
