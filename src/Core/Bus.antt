-- ===== src/Core/Bus.antt =====
-- internal/core/event.go: asyncEventBus, its dispatcher and its subscriptions, as steps that the
-- runtime interleaves. A step is what one goroutine does under one lock.
pub mod Lookup
pub mod Order
pub mod Growth
pub mod Wakeups
use marx_agent.Prelude.{
  ℕ, ◌+◌, Bool, true, false, ◌&&◌, ◌||◌, not, Option, none, some, List, [], ◌∷◌, ◌++◌, ◌==◌, map,
  if◌then◌else◌,
}
use marx_agent.Core.Session.{EventType, Event}

abbrev type_code : EventType → ℕ
type_code EventType.stream = 0
type_code EventType.tool_call = 1
type_code EventType.tool_result = 2
type_code EventType.state_change = 3
type_code EventType.error = 4
type_code EventType.done = 5
type_code EventType.sub_agent_message = 6
type_code EventType.compact = 7
type_code EventType.partial = 8

-- `id` stands for the pointer; the type `none` is EventTypeAll. `queue` starts at `head`, `wake` tells
-- whether the channel of that name holds its token, and `waiting` whether the goroutine waits for it.
-- `handled` are the events that the handler was called with, oldest first.
pub record Subscription : Type 0 where
  pub id : ℕ
  pub type : Option EventType
  pub queue : List Event
  pub wake : Bool
  pub waiting : Bool
  pub handled : List Event

-- `hand` is the event that the dispatcher took, beside the subscriptions of its copy of the list that
-- it has not come to yet. `running` is `dispatchCancel != nil`; `born` counts the subscriptions.
pub record Bus : Type 0 where
  pub subscribers : List Subscription
  pub incoming : List Event
  pub hand : Option (Event × List ℕ)
  pub running : Bool
  pub wake : Bool
  pub waiting : Bool
  pub born : ℕ

-- `subscriber.eventType != EventTypeAll && subscriber.eventType != delivery.event.Type`, negated.
abbrev pub accepts : Option EventType → Event → Bool
accepts none e = true
accepts (some t) e = type_code t == type_code e.type

abbrev pub is_nil : List Event → Bool
is_nil [] = true
is_nil (e ∷ es) = false

unfoldable pub enqueue : Event → Subscription → Subscription
enqueue e s = record s { queue = s.queue ++ e ∷ []; wake = if is_nil s.queue then true else s.wake }

abbrev pub offered : Event → Subscription → Subscription
offered e s = if accepts s.type e then enqueue e s else s

-- The part of next that takes a delivery, and the call of the handler.
abbrev pub handle : List Event → Subscription → Subscription
handle [] s = s
handle (e ∷ es) s = record s { queue = es; handled = s.handled ++ e ∷ [] }

abbrev pub deliver : Subscription → Subscription
deliver s = if s.waiting then s else handle s.queue s

-- next with an empty queue: the goroutine waits for its token.
abbrev pub napping : Subscription → Subscription
napping s = if is_nil s.queue then record s { waiting = true } else s

abbrev pub stirred : Subscription → Subscription
stirred s = if s.waiting && s.wake then record s { waiting = false; wake = false } else s

-- Acts on the subscription with the ID.
unfoldable pub at_id : ℕ → (Subscription → Subscription) → List Subscription → List Subscription
at_id i f [] = []
at_id i f (s ∷ ss) = (if s.id == i then f s else s) ∷ at_id i f ss

unfoldable pub without : ℕ → List Subscription → List Subscription
without i [] = []
without i (s ∷ ss) = if s.id == i then without i ss else s ∷ without i ss

-- `removed` of unsubscribe.
unfoldable pub has : ℕ → List Subscription → Bool
has i [] = false
has i (s ∷ ss) = s.id == i || has i ss

abbrev pub new_subscription : ℕ → Option EventType → Subscription
new_subscription i t = record {
  id = i;
  type = t;
  queue = [];
  wake = false;
  waiting = false;
  handled = [];
}

abbrev pub no_subscribers : List Subscription → Bool
no_subscribers [] = true
no_subscribers (s ∷ ss) = false

unfoldable pub publish : Event → Bus → Bus
publish e b =
    if no_subscribers b.subscribers
    then b
    else record b { incoming = b.incoming ++ e ∷ []; wake = true }

-- ensureDispatcherLocked
abbrev ensure_dispatcher : Bus → Bus
ensure_dispatcher b =
    if b.running then b else record b { running = true; wake = false; waiting = false }

unfoldable pub subscribe : Option EventType → Bus → Bus
subscribe t b =
    ensure_dispatcher (record b {
      subscribers = b.subscribers ++ new_subscription b.born t ∷ [];
      born = b.born + 1;
    })

-- A dispatcher that is stopped with an event in hand offers it to removed subscriptions alone.
abbrev pub stop_dispatcher : Bus → Bus
stop_dispatcher b =
    if no_subscribers b.subscribers
    then record b { running = false; incoming = []; wake = false; waiting = false; hand = none }
    else b

unfoldable pub unsubscribe : ℕ → Bus → Bus
unsubscribe i b =
    if has i b.subscribers
    then stop_dispatcher (record b { subscribers = without i b.subscribers })
    else b

-- runDispatcher with an event waiting: it takes the event and copies the list of subscribers.
abbrev pub take_first : List Event → Bus → Bus
take_first [] b = b
take_first (e ∷ es) b = record b { incoming = es; hand = some (e, map (λ s. s.id) b.subscribers) }

abbrev pub take_with : Option (Event × List ℕ) → Bus → Bus
take_with (some h) b = b
take_with none b = if b.running && not b.waiting then take_first b.incoming b else b

unfoldable pub take : Bus → Bus
take b = take_with b.hand b

-- One round of the dispatcher's loop over its copy.
abbrev pub offer_hand : Option (Event × List ℕ) → Bus → Bus
offer_hand none b = b
offer_hand (some (e, [])) b = record b { hand = none }
offer_hand (some (e, i ∷ is)) b = record b {
  subscribers = at_id i (offered e) b.subscribers;
  hand = some (e, is);
}

unfoldable pub offer : Bus → Bus
offer b = offer_hand b.hand b

-- runDispatcher with nothing to do waits for its token.
abbrev pub doze_with : Option (Event × List ℕ) → Bus → Bus
doze_with (some h) b = b
doze_with none b = if b.running && is_nil b.incoming then record b { waiting = true } else b

unfoldable pub doze : Bus → Bus
doze b = doze_with b.hand b

unfoldable pub rouse : Bus → Bus
rouse b = if b.waiting && b.wake then record b { waiting = false; wake = false } else b

pub data Step : Type 0 where
  publishes : Event → Step
  subscribes : Option EventType → Step
  unsubscribes : ℕ → Step
  takes offers dozes rouses : Step
  delivers naps stirs : ℕ → Step

-- A step that is not enabled changes nothing.
unfoldable pub step : Step → Bus → Bus
step (publishes e) b = publish e b
step (subscribes t) b = subscribe t b
step (unsubscribes i) b = unsubscribe i b
step takes b = take b
step offers b = offer b
step dozes b = doze b
step rouses b = rouse b
step (delivers i) b = record b { subscribers = at_id i deliver b.subscribers }
step (naps i) b = record b { subscribers = at_id i napping b.subscribers }
step (stirs i) b = record b { subscribers = at_id i stirred b.subscribers }

unfoldable pub steps : List Step → Bus → Bus
steps [] b = b
steps (x ∷ xs) b = steps xs (step x b)

abbrev pub quiet_bus : Bus
quiet_bus = record {
  subscribers = [];
  incoming = [];
  hand = none;
  running = false;
  wake = false;
  waiting = false;
  born = 0;
}
