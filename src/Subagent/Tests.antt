-- ===== src/Subagent/Tests.antt =====
-- internal/engine/subagent: a main core and one agent.
use marx_agent.Prelude.{
  ℕ, ◌≡◌, refl, String, true, false, Option, none, some, List, [], ◌∷◌, map, length, arith,
}
use marx_agent.Subagent.Mailbox.{
  Message, Mailbox, validate, new_mailbox, deliver, receive, count_delivered, count_dropped, close,
}
use marx_agent.Subagent.Broker.{
  Broker, register, unregister, without, find_mailbox, deliver_all, deliver_to, route,
}
use marx_agent.Subagent.World.{
  World, Surroundings, Action, registers, promises, routes, counts, counts_delivered, promise, pick,
  route_flying, count_delivery, orphan_records, file_orphans, change_box, shut, step, steps,
}
use marx_agent.Subagent.World.Promises.{IsPromised, steps-IsPromised}
use marx_agent.Subagent.World.Postings.{IsAccounted}
use marx_agent.Subagent.World.Accounts.{steps-IsAccounted}

-- Names what the runs below compute with.
unfoldable program : Unit {0}
unfolding validate new_mailbox deliver receive close register unregister without find_mailbox
    deliver_all deliver_to route promise pick route_flying count_delivery orphan_records
    file_orphans change_box shut count_delivered count_dropped step steps
program = tt

abbrev encode : Message → Option String
encode m = some m.content

abbrev itoa : ℕ → String
itoa n = "n"

abbrev fine : Surroundings
fine = record { writes = true; last_seq = some 7; now = 9 }

abbrev failing : Surroundings
failing = record { writes = false; last_seq = none; now = 9 }

abbrev broker : Broker
unfolding new_mailbox
broker = record {
  stream = "broker:journal";
  main_id = "core";
  mailboxes = ("core", new_mailbox "core") ∷ [];
  counter = 0;
  sent = 0;
  delivered = 0;
  orphaned = 0;
  closed = false;
}

abbrev world : World
world = record { broker = broker; journal = []; flying = []; uncounted = 0 }

abbrev task : String → String → Message
task to text = record {
  id = "";
  from_agent_id = "core";
  to_agent_id = to;
  type = "task";
  content = text;
  body = [];
  timestamp = 0;
  sequence = 0;
  orphan = false;
}

abbrev busy : List Action
busy =
    registers "a"
    ∷ promises 1 fine (task "a" "first")
    ∷ promises 2 fine (task "a" "second")
    ∷ routes 2
    ∷ routes 1
    ∷ counts_delivered "a"
    ∷ counts
    ∷ []

abbrev counters : Option Mailbox → ℕ × ℕ
counters none = (0, 0)
counters (some box) = (box.delivered, length box.waiting)

-- One of two deliveries is counted, and both messages are in the channel.
uncounted_yet : counters (find_mailbox "a" (steps encode itoa busy world).broker.mailboxes) ≡ (1, 2)
unfolding program
uncounted_yet = refl

abbrev held : Option Mailbox → List String
held none = []
held (some box) = map (λ m. m.content) box.waiting

-- Two sends may reach a mailbox in another order than the journal.
overtaken :
    held (find_mailbox "a" (steps encode itoa busy world).broker.mailboxes)
    ≡ "second" ∷ "first" ∷ []
unfolding program
overtaken = refl

in_journal : map (λ r. r.raw_data) (steps encode itoa busy world).journal ≡ "first" ∷ "second" ∷ []
unfolding program
in_journal = refl

nothing_sent :
    (steps encode itoa
      (promises 1 failing (task "main" "lost") ∷ routes 1 ∷ [])
      world).broker.mailboxes
    ≡ broker.mailboxes
unfolding program
nothing_sent = refl

-- A closed mailbox still gives what it holds.
readable :
    (receive (close (deliver (task "a" "left") (new_mailbox "a")).0)).1 ≡ some (task "a" "left")
unfolding program
readable = refl

steps-IsPromised_example : IsPromised encode (steps encode itoa busy world)
unfolding broker
steps-IsPromised_example =
    steps-IsPromised encode itoa busy world (record { boxes = (tt, tt); flying = tt })

world-IsAccounted : IsAccounted world
unfolding program
world-IsAccounted = record {
  boxes = ((omega arith, omega arith), tt);
  boxes_offered = (omega arith, tt);
  delivered = omega arith;
  journalled = omega arith;
}

steps-IsAccounted_example : IsAccounted (steps encode itoa busy world)
steps-IsAccounted_example = steps-IsAccounted encode itoa busy world world-IsAccounted
