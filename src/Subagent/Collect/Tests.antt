-- ===== src/Subagent/Collect/Tests.antt =====
-- internal/engine/subagent/state.go: two mailboxes, one of which holds three messages.
use marx_agent.Prelude.{
  ℕ, leb, Bool, ◌≡◌, ◌≢◌, refl, String, false, List, [], ◌∷◌, none, some, take, arith, str_eq_iff,
}
use marx_agent.Prelude.Int.{pos, negsuc}
use marx_agent.Subagent.Mailbox.{Message, Mailbox, receive, new_mailbox}
use marx_agent.Subagent.Broker.{Broker, find_mailbox}
use marx_agent.Subagent.Collect.{
  live, cancelled, took, out_of_range, refused, negative_limit, no_mailbox, no_broker, context_done,
  not_allowed, take_messages, take_found, receive_up_to, put_mailbox,
}
use marx_agent.Subagent.Collect.Taken.{Outcome, take_messages-Outcome}

-- Names what the runs below compute with.
unfoldable program : Unit {0}
unfolding take_messages take_found receive_up_to put_mailbox receive find_mailbox new_mailbox
program = tt

abbrev result : String → Message
result text = record {
  id = "";
  from_agent_id = "a";
  to_agent_id = "core";
  type = "result";
  content = text;
  body = [];
  timestamp = 0;
  sequence = 0;
  orphan = false;
}

abbrev inbox : List Message → Mailbox
inbox ms = record {
  agent_id = "core";
  waiting = ms;
  dropped = 0;
  delivered = 3;
  entered = 0;
  turned_away = 0;
  closed = false;
}

abbrev broker_with : List Message → Broker
unfolding new_mailbox
broker_with ms = record {
  stream = "broker:journal";
  main_id = "core";
  mailboxes = ("a", new_mailbox "a") ∷ ("core", inbox ms) ∷ [];
  counter = 0;
  sent = 3;
  delivered = 3;
  orphaned = 0;
  closed = false;
}

-- A runtime that makes slices of up to a thousand messages.
abbrev fits : ℕ → Bool
fits n = leb n 1000

abbrev three : List Message
three = result "x" ∷ result "y" ∷ result "z" ∷ []

takes_two :
    take_messages fits live "core" "core" "core" (pos 2) (some (broker_with three))
    ≡ (some (broker_with (result "z" ∷ [])), took (take 2 three))
unfolding program
takes_two = refl

takes_all :
    take_messages fits live "core" "core" "core" (pos 0) (some (broker_with three))
    ≡ (some (broker_with []), took three)
unfolding program
takes_all = refl

-- More than wait.
takes_what_waits :
    take_messages fits live "core" "core" "core" (pos 9) (some (broker_with three))
    ≡ (some (broker_with []), took three)
unfolding program
takes_what_waits = refl

takes_of_another :
    take_messages fits live "core" "a" "core" (pos 2) (some (broker_with three))
    ≡ (some (broker_with three), refused not_allowed)
unfolding program
takes_of_another = refl

takes_negative :
    take_messages fits live "core" "a" "a" (negsuc 0) (some (broker_with three))
    ≡ (some (broker_with three), refused negative_limit)
unfolding program
takes_negative = refl

takes_unknown :
    take_messages fits live "core" "core" "b" (negsuc 0) (some (broker_with three))
    ≡ (some (broker_with three), refused no_mailbox)
unfolding program
takes_unknown = refl

takes_late :
    take_messages fits cancelled "core" "core" "b" (pos 1) none ≡ (none, refused context_done)
unfolding program
takes_late = refl

takes_too_much :
    take_messages fits live "core" "core" "core" (pos 1001) (some (broker_with three))
    ≡ (some (broker_with three), out_of_range)
unfolding program
takes_too_much = refl

takes_nowhere : take_messages fits live "core" "core" "b" (pos 1) none ≡ (none, refused no_broker)
unfolding program
takes_nowhere = refl

core_holds : find_mailbox "core" (broker_with three).mailboxes ≡ some (inbox three)
unfolding program
core_holds = refl

a≢core : ◌≢◌ {A = String} "a" "core"
a≢core = grind (arith, str_eq_iff "a" "core")

take_messages-Outcome_example :
    Outcome fits "core" "core" "core" "a" 2
      (broker_with three)
      (inbox three)
      (take_messages fits live "core" "core" "core" (pos 2) (some (broker_with three)))
take_messages-Outcome_example =
    take_messages-Outcome fits "core" "core" "core" "a" 2 (broker_with three) (inbox three) a≢core
      core_holds
