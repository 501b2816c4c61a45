-- ===== src/Context/Tests.antt =====
-- internal/engine/context/ring.go: a ring of two that is given three messages.
mod Compacting
use marx_agent.Prelude.{◌≡◌, refl, String, true, List, [], ◌∷◌}
use marx_agent.Core.Message.{Message, user, end}
use marx_agent.Context.Ring.{Ring, append, append_each}
use marx_agent.Context.Ring.History.{Holds, append_each-Holds}

abbrev message_of : String → Message
message_of id = record {
  id = id;
  role = user;
  content = [];
  created_at = 1;
  metadata = end;
  incomplete = true;
}

abbrev two_ring : Ring
two_ring = record { messages = []; capacity = 2; dropped = 0; has_handler = true; alarms = [] }

abbrev batches : List (List Message)
batches = (message_of "a" ∷ []) ∷ (message_of "b" ∷ message_of "c" ∷ []) ∷ []

two_newest : (append_each batches two_ring).messages ≡ message_of "b" ∷ message_of "c" ∷ []
unfolding append_each append
two_newest = refl

one_alarm : (append_each batches two_ring).alarms ≡ (1, 1) ∷ []
unfolding append_each append
one_alarm = refl

append_each-Holds_example :
    Holds (append_each batches two_ring) (message_of "a" ∷ message_of "b" ∷ message_of "c" ∷ [])
append_each-Holds_example =
    append_each-Holds batches two_ring [] (record { newest = refl; counted = refl })
