-- ===== src/Subagent/Mailbox.antt =====
-- internal/engine/subagent/message.go: messages between agents, and their mailboxes. A message is
-- a value, so Clone is the identity; each operation here holds the mailbox's lock or its channel.
use marx_agent.Prelude.{
  ℕ, zero, suc, ◌+◌, Bool, true, false, String, Option, none, some, List, [], ◌∷◌, ◌++◌, ltb,
  length, is_blank, if◌then◌else◌,
}

-- `body` is the field Data; a timestamp of 0 is the zero time.
pub record Message : Type 0 where
  pub id : String
  pub from_agent_id : String
  pub to_agent_id : String
  pub type : String
  pub content : String
  pub body : List ℕ
  pub timestamp : ℕ
  pub sequence : ℕ
  pub orphan : Bool

pub data SendError : Type 0 where
  no_sender : SendError
  no_recipient : SendError
  no_type : SendError
  broker_closed : SendError
  encode_failed : SendError
  journal_refused : SendError

unfoldable pub validate : Message → Option SendError
validate m =
    if is_blank m.from_agent_id
    then some no_sender
    else if is_blank m.to_agent_id
    then some no_recipient
    else if is_blank m.type
    then some no_type
    else none

-- `waiting` is what the channel holds. `entered` and `turned_away` count the calls of deliver that are
-- past their `select` and have not counted yet: how many of them have put their message into the
-- channel, and how many have found it full.
pub record Mailbox : Type 0 where
  pub agent_id : String
  pub waiting : List Message
  pub dropped : ℕ
  pub delivered : ℕ
  pub entered : ℕ
  pub turned_away : ℕ
  pub closed : Bool

abbrev pub mailbox_capacity : ℕ
mailbox_capacity = 64

unfoldable pub new_mailbox : String → Mailbox
new_mailbox agent = record {
  agent_id = agent;
  waiting = [];
  dropped = 0;
  delivered = 0;
  entered = 0;
  turned_away = 0;
  closed = false;
}

-- deliver as far as its `select`, and what it will answer. A mailbox is closed under the broker's
-- lock for writers, which route excludes by the one for readers, or when the broker has let go of
-- it, so it stays open or closed between the test and the `select`.
unfoldable pub deliver : Message → Mailbox → Mailbox × Bool
deliver m box =
    if box.closed
    then (box, false)
    else if ltb (length box.waiting) mailbox_capacity
    then (record box { waiting = box.waiting ++ m ∷ []; entered = box.entered + 1 }, true)
    else (record box { turned_away = box.turned_away + 1 }, false)

abbrev pub count_entered : ℕ → Mailbox → Mailbox
count_entered zero box = box
count_entered (suc n) box = record box { delivered = box.delivered + 1; entered = n }

abbrev pub count_turned_away : ℕ → Mailbox → Mailbox
count_turned_away zero box = box
count_turned_away (suc n) box = record box { dropped = box.dropped + 1; turned_away = n }

-- The two sections of deliver behind its `select`, one of which a call runs.
unfoldable pub count_delivered : Mailbox → Mailbox
count_delivered box = count_entered box.entered box

unfoldable pub count_dropped : Mailbox → Mailbox
count_dropped box = count_turned_away box.turned_away box

abbrev pub next_of : List Message → Mailbox → Mailbox × Option Message
next_of [] box = (box, none)
next_of (m ∷ ms) box = (record box { waiting = ms }, some m)

-- ReceiveWithin(0), and the moment in which Receive or ReceiveWithin takes a message; none is that
-- there is nothing to take.
unfoldable pub receive : Mailbox → Mailbox × Option Message
receive box = next_of box.waiting box

unfoldable pub close : Mailbox → Mailbox
close box = record box { closed = true }
