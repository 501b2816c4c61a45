-- ===== src/Core/Tests/Busy.antt =====
-- internal/core/event.go: a bus with two subscriptions, one of which leaves.
use marx_agent.Prelude.{◌≡◌, refl, arith, Option, none, some, List, [], ◌∷◌, All}
use marx_agent.Core.Error.{max_iterations}
use marx_agent.Core.Session.{EventType, Event, error_payload}
use marx_agent.Core.Bus.{
  Subscription, Bus, quiet_bus, new_subscription, enqueue, at_id, without, has, publish, subscribe,
  unsubscribe, take, offer, doze, rouse, Step, publishes, subscribes, unsubscribes, takes, offers,
  delivers, naps, stirs, step, steps,
}
use marx_agent.Core.Bus.Lookup.{lookup}
use marx_agent.Core.Bus.Order.{IsWhole, Grown, Keeps, step-IsWhole}
use marx_agent.Core.Bus.Growth.{steps-Grown}
use marx_agent.Core.Bus.Wakeups.{NoneLost, steps-NoneLost}

unfoldable bus_program : Unit {0}
unfolding enqueue at_id without has publish subscribe unsubscribe take offer doze rouse step steps
bus_program = tt

abbrev event : EventType → Event
event t = record {
  type = t;
  payload = error_payload "demo" max_iterations;
  error = none;
  session_id = "session";
  agent_id = "agent";
}

abbrev two_subscribers : Bus
two_subscribers = step (subscribes (some EventType.error)) (step (subscribes none) quiet_bus)

quiet_bus-IsWhole : IsWhole quiet_bus
quiet_bus-IsWhole = record { below = tt; distinct = tt; once = tt }

two_subscribers-IsWhole : IsWhole two_subscribers
two_subscribers-IsWhole =
    step-IsWhole (subscribes (some EventType.error)) (step (subscribes none) quiet_bus)
      (step-IsWhole (subscribes none) quiet_bus quiet_bus-IsWhole)

-- The second subscription leaves while the dispatcher has an event in hand.
abbrev busy : List Step
busy =
    naps 0
    ∷ publishes (event EventType.done)
    ∷ takes
    ∷ publishes (event EventType.error)
    ∷ offers
    ∷ stirs 0
    ∷ unsubscribes 1
    ∷ offers
    ∷ offers
    ∷ takes
    ∷ delivers 0
    ∷ offers
    ∷ delivers 0
    ∷ []

abbrev handled_by : Option Subscription → List Event
handled_by none = []
handled_by (some s) = s.handled

first_handles_both :
    handled_by (lookup 0 (steps busy two_subscribers).subscribers)
    ≡ event EventType.done ∷ event EventType.error ∷ []
unfolding bus_program
first_handles_both = refl

first_stays : All (Keeps 0) busy
first_stays = (
  tt,
  (tt, (tt, (tt, (tt, (tt, (λ e. omega (arith, e), (tt, (tt, (tt, (tt, (tt, (tt, tt)))))))))))),
)

steps-Grown_example :
    Grown 0
      (new_subscription 0 none)
      two_subscribers
      (steps busy two_subscribers)
      (event EventType.done ∷ event EventType.error ∷ [])
unfolding bus_program
steps-Grown_example =
    steps-Grown busy 0 (new_subscription 0 none) two_subscribers two_subscribers-IsWhole refl
      first_stays

steps-NoneLost_example : NoneLost (steps busy two_subscribers)
unfolding bus_program
steps-NoneLost_example =
    steps-NoneLost busy two_subscribers
      (record { dispatcher = refl; subscriptions = (refl, (refl, tt)) })
