-- ===== src/Context/Ring.antt =====
-- internal/engine/context/ring.go: RingBuffer. The lock makes each method one step.
pub mod History
use marx_agent.Prelude.{
  ℕ, ◌+◌, ◌-◌, Bool, Option, none, some, List, [], ◌∷◌, ◌++◌, ◌==◌, leb, length, drop,
  if◌then◌else◌,
}
use marx_agent.Core.Message.{Message}

-- `alarms` are the calls of the overflow handler: the number dropped and the total, oldest first.
pub record Ring : Type 0 where
  pub messages : List Message
  pub capacity : ℕ
  pub dropped : ℕ
  pub has_handler : Bool
  pub alarms : List (ℕ × ℕ)

-- NewRingBuffer; an int that is not positive is 0 here.
unfoldable pub new_ring : ℕ → Bool → Option Ring
new_ring capacity has_handler =
    if capacity == 0
    then none
    else some (record {
      messages = [];
      capacity = capacity;
      dropped = 0;
      has_handler = has_handler;
      alarms = [];
    })

-- Append: the ring, and the number of messages that it dropped.
unfoldable pub append : List Message → Ring → Ring × ℕ
append more r =
    let all : List Message = r.messages ++ more in
    if leb (length all) r.capacity
    then (record r { messages = all }, 0)
    else let lost : ℕ = length all - r.capacity in
      (
        record r {
          messages = drop lost all;
          dropped = r.dropped + lost;
          alarms = if r.has_handler then r.alarms ++ (lost, r.dropped + lost) ∷ [] else r.alarms;
        },
        lost,
      )

-- Reset
unfoldable pub reset : Ring → Ring
reset r = record r { messages = [] }

-- Several calls of Append, one after the other.
unfoldable pub append_each : List (List Message) → Ring → Ring
append_each [] r = r
append_each (more ∷ rest) r = append_each rest (append more r).0
