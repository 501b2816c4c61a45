-- ===== src/Subagent/Broker.antt =====
-- internal/engine/subagent/broker.go: the mailboxes of a broker, under its lock.
use marx_agent.Prelude.{
  ℕ, Bool, true, false, ◌&&◌, String, Option, none, some, List, [], ◌∷◌, ◌++◌, is_empty, is_blank,
  str_eq, if◌then◌else◌,
}
use marx_agent.Subagent.Mailbox.{Message, Mailbox, new_mailbox, deliver, close}

abbrev pub route_broadcast : String
route_broadcast = "broadcast"

abbrev pub route_main : String
route_main = "main"

pub record Broker : Type 0 where
  pub stream : String
  pub main_id : String
  pub mailboxes : List (String × Mailbox)
  pub counter : ℕ
  pub sent : ℕ
  pub delivered : ℕ
  pub orphaned : ℕ
  pub closed : Bool

pub data ConfigError : Type 0 where
  no_journal : ConfigError
  no_main : ConfigError

pub data Built : Type 0 where
  built : Broker → Built
  refused : ConfigError → Built

-- NewBroker: whether there is a journal, the stream and the main core's identifier.
unfoldable pub new_broker : Bool → String → String → Built
new_broker has_journal stream main =
    if has_journal
    then if is_empty main
      then refused no_main
      else built (record {
        stream = if is_empty stream then "broker:journal" else stream;
        main_id = main;
        mailboxes = (main, new_mailbox main) ∷ [];
        counter = 0;
        sent = 0;
        delivered = 0;
        orphaned = 0;
        closed = false;
      })
    else refused no_journal

unfoldable pub find_mailbox : String → List (String × Mailbox) → Option Mailbox
find_mailbox agent [] = none
find_mailbox agent ((key, box) ∷ rest) =
    let found = find_mailbox agent rest in if str_eq agent key then some box else found

abbrev pub has_mailbox : Option Mailbox → Bool
has_mailbox none = false
has_mailbox (some box) = true

pub data RegisterError : Type 0 where
  no_identifier : RegisterError
  register_closed : RegisterError

unfoldable pub register : String → Broker → Broker × Option RegisterError
register agent b =
    if is_blank agent
    then (b, some no_identifier)
    else if b.closed
    then (b, some register_closed)
    else if has_mailbox (find_mailbox agent b.mailboxes)
    then (b, none)
    else (record b { mailboxes = b.mailboxes ++ (agent, new_mailbox agent) ∷ [] }, none)

unfoldable pub without : String → List (String × Mailbox) → List (String × Mailbox)
without agent [] = []
without agent ((key, box) ∷ rest) =
    let others = without agent rest in if str_eq agent key then others else (key, box) ∷ others

-- Unregister, and the mailbox that it closed.
unfoldable pub unregister : String → Broker → Broker × Option Mailbox
unregister agent b = (
  record b { mailboxes = without agent b.mailboxes },
  elim (find_mailbox agent b.mailboxes) [ none ↦ none | some box ↦ some (close box) ],
)

abbrev all_took : List (Mailbox × Bool) → Bool
all_took [] = true
all_took ((box, took) ∷ rest) = took && all_took rest

-- The loop of route over every mailbox.
unfoldable pub deliver_all : Message → List (String × Mailbox) → List (String × Mailbox) × Bool
deliver_all m [] = ([], true)
deliver_all m ((key, box) ∷ rest) =
    let (box', took) = deliver m box in
    let (rest', all) = deliver_all m rest in ((key, box') ∷ rest', took && all)

unfoldable pub deliver_to :
    String → Message → List (String × Mailbox) → List (String × Mailbox) × Bool
deliver_to agent m [] = ([], false)
deliver_to agent m ((key, box) ∷ rest) =
    let (box', took) = deliver m box in
    let (rest', took') = deliver_to agent m rest in
    if str_eq agent key then ((key, box') ∷ rest, took) else ((key, box) ∷ rest', took')

unfoldable pub route : Message → Broker → Broker × Bool
route m b =
    let (boxes, took) =
      if str_eq m.to_agent_id route_broadcast
      then deliver_all m b.mailboxes
      else if str_eq m.to_agent_id route_main
      then deliver_to b.main_id m b.mailboxes
      else deliver_to m.to_agent_id m b.mailboxes in
    (record b { mailboxes = boxes }, took)
