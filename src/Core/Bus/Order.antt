-- ===== src/Core/Bus/Order.antt =====
-- internal/core/event.go: what a subscription sees, whatever the interleaving.
use marx_agent.Prelude.{
  ℕ, ◌≡◌, ◌≢◌, refl, Bool, true, false, ◌&&◌, Option, none, some, List, [], ◌∷◌, ◌++◌, arith,
  if◌then◌else◌,
}
use marx_agent.Core.Session.{EventType, Event}
use marx_agent.Core.Bus.{
  Subscription, Bus, at_id, new_subscription, accepts, enqueue, offered, handle, deliver, napping,
  stirred, publish, subscribe, unsubscribe, take, take_first, take_with, doze_with, offer,
  offer_hand, doze, rouse, Step, publishes, subscribes, unsubscribes, takes, offers, dozes, rouses,
  delivers, naps, stirs, step,
}
use marx_agent.Core.Bus.Lookup.{
  lookup, among, Unique, Below, ids_of, ids_of-at_id, Below-at_id, Below-append, Below-without,
  Unique-append, Unique-without,
}

-- The events that a subscription of the type is meant for.
abbrev pub matching : Option EventType → List Event → List Event
matching t [] = []
matching t (e ∷ es) = if accepts t e then e ∷ matching t es else matching t es

-- What the dispatcher holds for the subscription.
abbrev pub held : Subscription → Option (Event × List ℕ) → List Event
held s none = []
held s (some (e, is)) = if among s.id is && accepts s.type e then e ∷ [] else []

-- What a subscription has handled, followed by what it is going to handle.
abbrev pub flow : Subscription → Bus → List Event
flow s b = (s.handled ++ s.queue) ++ (held s b.hand ++ matching s.type b.incoming)

abbrev pub HandUnique : Option (Event × List ℕ) → Type 0
HandUnique none = Unit
HandUnique (some (e, is)) = Unique is

pub record IsWhole (b : Bus) : Type 0 where
  pub below : Below b.born b.subscribers
  pub distinct : Unique (ids_of b.subscribers)
  pub once : HandUnique b.hand

pub matching-append :
    (t : Option EventType) (xs ys : List Event)
    → matching t (xs ++ ys) ≡ matching t xs ++ matching t ys
matching-append t [] ys = refl
matching-append t (x ∷ xs) ys = ground (arith, matching-append t xs ys)

-- The events that the steps publish.
abbrev pub published : List Step → List Event
published [] = []
published (publishes e ∷ xs) = e ∷ published xs
published (_ ∷ xs) = published xs

abbrev pub told : Step → List Event
told (publishes e) = e ∷ []
told _ = []

abbrev pub Keeps : ℕ → Step → Type 0
Keeps i (unsubscribes j) = i ≢ j
Keeps i _ = Unit

-- The subscription is still there, and its flow has grown by the given events.
abbrev pub Grown : ℕ → Subscription → Bus → Bus → List Event → Type 0
Grown i s b c es =
    (t : Subscription) × (lookup i c.subscribers ≡ some t)
    × (t.type ≡ s.type)
    × (flow t c ≡ flow s b ++ es)

pub offered-id : (e : Event) (s : Subscription) → (offered e s).id ≡ s.id
unfolding enqueue
offered-id e s = ground (arith)

handle-id : (es : List Event) (s : Subscription) → (handle es s).id ≡ s.id
handle-id [] s = refl
handle-id (e ∷ es) s = refl

pub deliver-id : (s : Subscription) → (deliver s).id ≡ s.id
deliver-id s = ground (arith, handle-id s.queue s)

pub napping-id : (s : Subscription) → (napping s).id ≡ s.id
napping-id s = ground (arith)

pub stirred-id : (s : Subscription) → (stirred s).id ≡ s.id
stirred-id s = ground (arith)

IsWhole-if : (c : Bool) (x y : Bus) → IsWhole x → IsWhole y → IsWhole (if c then x else y)
IsWhole-if true x y h k = h
IsWhole-if false x y h k = k

IsWhole-at_id :
    (f : Subscription → Subscription) (keeps : (s : Subscription) → (f s).id ≡ s.id) (i : ℕ)
    (b : Bus)
    → IsWhole b
    → IsWhole (record b { subscribers = at_id i f b.subscribers })
IsWhole-at_id f keeps i b h = record {
  below = Below-at_id f keeps b.born i b.subscribers h.below;
  distinct = rw (ids_of-at_id f keeps i b.subscribers) h.distinct;
  once = h.once;
}

take_first-IsWhole : (es : List Event) (b : Bus) → IsWhole b → IsWhole (take_first es b)
take_first-IsWhole [] b h = h
take_first-IsWhole (e ∷ es) b h = record {
  below = h.below;
  distinct = h.distinct;
  once = h.distinct;
}

take_with-IsWhole : (o : Option (Event × List ℕ)) (b : Bus) → IsWhole b → IsWhole (take_with o b)
take_with-IsWhole (some x) b h = h
take_with-IsWhole none b h = IsWhole-if _ _ b (take_first-IsWhole b.incoming b h) h

doze_with-IsWhole : (o : Option (Event × List ℕ)) (b : Bus) → IsWhole b → IsWhole (doze_with o b)
doze_with-IsWhole (some x) b h = h
doze_with-IsWhole none b h =
    IsWhole-if _ _ b (record { below = h.below; distinct = h.distinct; once = h.once }) h

offer_hand-IsWhole :
    (o : Option (Event × List ℕ)) (b : Bus) → HandUnique o → IsWhole b → IsWhole (offer_hand o b)
offer_hand-IsWhole none b u h = h
offer_hand-IsWhole (some (e, [])) b u h = record {
  below = h.below;
  distinct = h.distinct;
  once = tt;
}
offer_hand-IsWhole (some (e, i ∷ is)) b u h =
    let k = IsWhole-at_id (offered e) (offered-id e) i b h in
    record { below = k.below; distinct = k.distinct; once = u.1 }

-- Every step keeps the subscriptions apart.
pub step-IsWhole : (x : Step) (b : Bus) → IsWhole b → IsWhole (step x b)
unfolding step publish subscribe unsubscribe take offer doze rouse
step-IsWhole (publishes e) b h =
    IsWhole-if _ b _ h (record { below = h.below; distinct = h.distinct; once = h.once })
step-IsWhole (subscribes t) b h =
    let low = Below-append b.born b.subscribers (new_subscription b.born t) h.below refl in
    let apart =
      Unique-append b.born b.subscribers (new_subscription b.born t) h.below refl h.distinct in
    IsWhole-if _ _ _ (record { below = low; distinct = apart; once = h.once })
      (record { below = low; distinct = apart; once = h.once })
step-IsWhole (unsubscribes i) b h =
    let low = Below-without b.born i b.subscribers h.below in
    let apart = Unique-without i b.subscribers h.distinct in
    IsWhole-if _ _ b
      (IsWhole-if _ _ _ (record { below = low; distinct = apart; once = tt })
        (record { below = low; distinct = apart; once = h.once }))
      h
step-IsWhole takes b h = take_with-IsWhole b.hand b h
step-IsWhole offers b h = offer_hand-IsWhole b.hand b h.once h
step-IsWhole dozes b h = doze_with-IsWhole b.hand b h
step-IsWhole rouses b h =
    IsWhole-if _ _ b (record { below = h.below; distinct = h.distinct; once = h.once }) h
step-IsWhole (delivers i) b h = IsWhole-at_id deliver deliver-id i b h
step-IsWhole (naps i) b h = IsWhole-at_id napping napping-id i b h
step-IsWhole (stirs i) b h = IsWhole-at_id stirred stirred-id i b h
