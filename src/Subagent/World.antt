-- ===== src/Subagent/World.antt =====
-- internal/engine/subagent/broker.go: a broker among goroutines. Send promises a message to the
-- journal under the lock, routes it later under the lock for readers, and counts it later still, so
-- others act in between: `step` is one such action. A mailbox counts a delivery after it is in the
-- channel, so that is an action too; it may come late, even behind the broker's own count. A route to
-- several mailboxes is one action.
pub mod Boxes
pub mod Holding
pub mod Promises
pub mod Counters
pub mod Postings
pub mod Accounts
use marx_agent.Prelude.{
  ℕ, zero, suc, ◌+◌, Bool, true, false, ◌&&◌, String, Option, none, some, List, [], ◌∷◌, ◌++◌, ◌==◌,
  is_empty, is_blank, str_eq, str_append, length, map, if◌then◌else◌,
}
use marx_agent.Storage.Buffer.{Record}
use marx_agent.Subagent.Mailbox.{
  Message, Mailbox, SendError, broker_closed, encode_failed, journal_refused, validate, receive,
  count_delivered, count_dropped,
}
use marx_agent.Subagent.Broker.{Broker, register, unregister, route}

-- Whether route put it where it had to.
abbrev pub count_if : Bool → ℕ → ℕ
count_if true n = suc n
count_if false n = n

-- A send that is past the journal: its message, which route has not got yet.
pub record World : Type 0 where
  pub broker : Broker
  pub journal : List Record
  pub flying : List (ℕ × Message)
  pub uncounted : ℕ

-- What the surroundings give a call: whether WriteSync succeeds, what LastSeq answers, the clock.
pub record Surroundings : Type 0 where
  pub writes : Bool
  pub last_seq : Option ℕ
  pub now : ℕ

abbrev pub stamped : Surroundings → Message → Message
stamped e m = if m.timestamp == 0 then record m { timestamp = e.now } else m

abbrev pub numbered : Option ℕ → Message → Message
numbered none m = m
numbered (some n) m = record m { sequence = n }

abbrev pub record_of : Broker → Message → String → Record
record_of b m text = record {
  stream = b.stream;
  seq = 0;
  type = "broker_msg";
  raw_data = text;
  ts = m.timestamp;
}

pub data Sent : Type 0 where
  sent : Message → Sent
  not_sent : SendError → Sent

-- Send behind the encoding.
abbrev pub promise_encoded :
    ℕ → Surroundings → Message → Broker → World → Option String → World × Sent
promise_encoded d e m b w none = (record w { broker = b }, not_sent encode_failed)
promise_encoded d e m b w (some text) =
    let m' : Message = numbered e.last_seq m in
    if e.writes
    then (
      record w {
        broker = record b { sent = suc b.sent };
        journal = w.journal ++ record_of b m text ∷ [];
        flying = w.flying ++ (d, m') ∷ [];
      },
      sent m',
    )
    else (record w { broker = b }, not_sent journal_refused)

-- The message of a goroutine on its way, and the others.
unfoldable pub pick : ℕ → List (ℕ × Message) → Option Message × List (ℕ × Message)
pick d [] = (none, [])
pick d ((k, m) ∷ rest) =
    let (found, others) = pick d rest in if d == k then (some m, rest) else (found, (k, m) ∷ others)

abbrev pub route_found : Option Message × List (ℕ × Message) → World → World
route_found (none, others) w = w
route_found (some m, others) w =
    let (b, took) = route m w.broker in
    record w { broker = b; flying = others; uncounted = count_if took w.uncounted }

-- Send's call of route.
unfoldable pub route_flying : ℕ → World → World
route_flying d w = route_found (pick d w.flying) w

abbrev pub counted : ℕ → World → World
counted zero w = w
counted (suc n) w = record w {
  broker = record w.broker { delivered = suc w.broker.delivered };
  uncounted = n;
}

-- Send's last section, which counts the delivery.
unfoldable pub count_delivery : World → World
count_delivery w = counted w.uncounted w

-- What the loop of FileOrphans does with one message.
abbrev pub add_orphan :
    Broker → Message → Option String → Option (List Record) → Option (List Record)
add_orphan b m (some text) (some rest) = some (record_of b m text ∷ rest)
add_orphan b m _ _ = none

abbrev pub file_encoded : Surroundings → ℕ → Option (List Record) → World → World × Option SendError
file_encoded e n none w = (w, some encode_failed)
file_encoded e n (some records) w =
    if e.writes
    then (
      record w {
        broker = record w.broker { orphaned = w.broker.orphaned + n };
        journal = w.journal ++ records;
      },
      none,
    )
    else (w, some journal_refused)

unfoldable pub shut : Broker → Broker
shut b = if b.closed then b else record b { closed = true; mailboxes = [] }

-- An operation on the mailbox that is registered for an agent.
unfoldable pub change_box :
    (Mailbox → Mailbox) → String → List (String × Mailbox) → List (String × Mailbox)
change_box f agent [] = []
change_box f agent ((key, box) ∷ rest) =
    let others = change_box f agent rest in
    if str_eq agent key then (key, f box) ∷ rest else (key, box) ∷ others

abbrev pub change_at : (Mailbox → Mailbox) → String → Broker → Broker
change_at f agent b = record b { mailboxes = change_box f agent b.mailboxes }

abbrev pub received : Mailbox → Mailbox
received box = (receive box).0

pub data Action : Type 0 where
  registers : String → Action
  unregisters : String → Action
  promises : ℕ → Surroundings → Message → Action
  routes : ℕ → Action
  counts : Action
  receives : String → Action
  counts_delivered : String → Action
  counts_dropped : String → Action
  files : Surroundings → List Message → Action
  shuts : Action

abbrev pub on_broker : (Broker → Broker) → World → World
on_broker f w = record w { broker = f w.broker }

-- json.Marshal of a message, and the text of a number.
module _ (encode : Message → Option String) (itoa : ℕ → String) where
  abbrev pub identified : Message → Broker → Message × Broker
  identified m b =
      if is_empty m.id
      then (
        record m { id = str_append "msg-" (itoa (suc b.counter)) },
        record b { counter = suc b.counter },
      )
      else (m, b)

  abbrev pub promise_open : ℕ → Surroundings → Message → World → World × Sent
  promise_open d e m w =
      let (m', b) = identified m w.broker in
      promise_encoded d e (stamped e m') b w (encode (stamped e m'))

  abbrev pub promise_unless : Bool → ℕ → Surroundings → Message → World → World × Sent
  promise_unless true d e m w = (w, not_sent broker_closed)
  promise_unless false d e m w = promise_open d e m w

  abbrev pub promise_valid : ℕ → Surroundings → Message → World → Option SendError → World × Sent
  promise_valid d e m w (some x) = (w, not_sent x)
  promise_valid d e m w none = promise_unless w.broker.closed d e m w

  -- Send by the goroutine `d` as far as the first unlock.
  unfoldable pub promise : ℕ → Surroundings → Message → World → World × Sent
  promise d e m w = promise_valid d e m w (validate m)

  -- The loop of FileOrphans.
  unfoldable pub orphan_records : Broker → List Message → Option (List Record)
  orphan_records b [] = some []
  orphan_records b (m ∷ ms) =
      add_orphan b m (encode (record m { orphan = true })) (orphan_records b ms)

  -- FileOrphans, without the copies that it returns.
  unfoldable pub file_orphans : Surroundings → List Message → World → World × Option SendError
  file_orphans e [] w = (w, none)
  file_orphans e (m ∷ ms) w = file_encoded e (length (m ∷ ms)) (orphan_records w.broker (m ∷ ms)) w

  unfoldable pub step : Action → World → World
  step (registers agent) w = on_broker (λ b. (register agent b).0) w
  step (unregisters agent) w = on_broker (λ b. (unregister agent b).0) w
  step (promises d e m) w = (promise d e m w).0
  step (routes d) w = route_flying d w
  step counts w = count_delivery w
  step (receives agent) w = on_broker (change_at received agent) w
  step (counts_delivered agent) w = on_broker (change_at count_delivered agent) w
  step (counts_dropped agent) w = on_broker (change_at count_dropped agent) w
  step (files e ms) w = (file_orphans e ms w).0
  step shuts w = on_broker shut w

  unfoldable pub steps : List Action → World → World
  steps [] w = w
  steps (a ∷ rest) w = steps rest (step a w)
