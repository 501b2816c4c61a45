-- ===== src/Core/Bus/Wakeups.antt =====
-- internal/core/event.go: the tokens of the `wake` channels.
use marx_agent.Prelude.{
  ℕ, ◌≡◌, refl, Bool, true, false, ◌||◌, not, Option, none, some, List, [], ◌∷◌, ◌++◌, ◌==◌, inl,
  inr, arith, All, All-append, if◌then◌else◌, Bool-cases,
}
use marx_agent.Core.Session.{Event}
use marx_agent.Core.Bus.{
  Subscription, Bus, at_id, without, new_subscription, enqueue, offered, handle, deliver, napping,
  stirred, is_nil, has, stop_dispatcher, publish, subscribe, unsubscribe, take, take_first,
  take_with, doze_with, offer, offer_hand, doze, rouse, Step, publishes, subscribes, unsubscribes,
  takes, offers, dozes, rouses, delivers, naps, stirs, step, steps,
}

-- A goroutine that waits with work to do finds a token in its channel.
abbrev pub IsAlert : Bool → List Event → Bool → Type 0
IsAlert waiting work wake = (not waiting || is_nil work || wake) ≡ true

abbrev pub IsAwake : Subscription → Type 0
IsAwake s = IsAlert s.waiting s.queue s.wake

pub record NoneLost (b : Bus) : Type 0 where
  pub dispatcher : IsAlert b.waiting b.incoming b.wake
  pub subscriptions : All IsAwake b.subscribers

is_nil-append : (es : List Event) (e : Event) → is_nil (es ++ e ∷ []) ≡ false
is_nil-append [] e = refl
is_nil-append (x ∷ es) e = refl

offered-IsAwake : (e : Event) (s : Subscription) → IsAwake s → IsAwake (offered e s)
unfolding enqueue
offered-IsAwake e s h = ground (arith, is_nil-append s.queue e)

asleep : (s : Subscription) → s.waiting ≡ false → IsAwake s
asleep s w = ground (arith)

handle_waiting : (es : List Event) (s : Subscription) → (handle es s).waiting ≡ s.waiting
handle_waiting [] s = refl
handle_waiting (e ∷ es) s = refl

deliver-IsAwake : (s : Subscription) → IsAwake s → IsAwake (deliver s)
deliver-IsAwake s h = ground (arith, handle_waiting s.queue s)

napping-IsAwake : (s : Subscription) → IsAwake s → IsAwake (napping s)
napping-IsAwake s h = ground (arith)

stirred-IsAwake : (s : Subscription) → IsAwake s → IsAwake (stirred s)
stirred-IsAwake s h = ground (arith)

at_id-IsAwake :
    (i : ℕ) (f : Subscription → Subscription) (ss : List Subscription)
    → ((s : Subscription) → IsAwake s → IsAwake (f s))
    → All IsAwake ss
    → All IsAwake (at_id i f ss)
unfolding at_id
at_id-IsAwake i f [] k h = tt
at_id-IsAwake i f (s ∷ ss) k h = elim (Bool-cases (s.id == i)) [
  | inl e ↦ rw e (k s h.0, at_id-IsAwake i f ss k h.1)
  | inr e ↦ rw e (h.0, at_id-IsAwake i f ss k h.1)
]

without-IsAwake : (i : ℕ) (ss : List Subscription) → All IsAwake ss → All IsAwake (without i ss)
unfolding without
without-IsAwake i [] h = tt
without-IsAwake i (s ∷ ss) h = elim (Bool-cases (s.id == i)) [
  | inl e ↦ rw e (without-IsAwake i ss h.1)
  | inr e ↦ rw e (h.0, without-IsAwake i ss h.1)
]

NoneLost-if :
    (c : Bool) (x y : Bus)
    → (c ≡ true → NoneLost x)
    → (c ≡ false → NoneLost y)
    → NoneLost (if c then x else y)
NoneLost-if true x y h k = h refl
NoneLost-if false x y h k = k refl

take_first-NoneLost :
    (es : List Event) (b : Bus) → NoneLost b → b.waiting ≡ false → NoneLost (take_first es b)
take_first-NoneLost [] b h w = h
take_first-NoneLost (e ∷ es) b h w = record {
  dispatcher = ground (arith);
  subscriptions = h.subscriptions;
}

take_with-NoneLost : (o : Option (Event × List ℕ)) (b : Bus) → NoneLost b → NoneLost (take_with o b)
take_with-NoneLost (some x) b h = h
take_with-NoneLost none b h =
    NoneLost-if _ _ b (λ c. take_first-NoneLost b.incoming b h (ground (arith))) (λ c. h)

doze_with-NoneLost : (o : Option (Event × List ℕ)) (b : Bus) → NoneLost b → NoneLost (doze_with o b)
doze_with-NoneLost (some x) b h = h
doze_with-NoneLost none b h =
    NoneLost-if _ _ b (λ c. record { dispatcher = ground (arith); subscriptions = h.subscriptions })
      (λ c. h)

at_id-NoneLost :
    (i : ℕ) (f : Subscription → Subscription) (b : Bus)
    → ((s : Subscription) → IsAwake s → IsAwake (f s))
    → NoneLost b
    → NoneLost (record b { subscribers = at_id i f b.subscribers })
at_id-NoneLost i f b k h = record {
  dispatcher = h.dispatcher;
  subscriptions = at_id-IsAwake i f b.subscribers k h.subscriptions;
}

offer_hand-NoneLost :
    (o : Option (Event × List ℕ)) (b : Bus) → NoneLost b → NoneLost (offer_hand o b)
offer_hand-NoneLost none b h = h
offer_hand-NoneLost (some (e, [])) b h = record {
  dispatcher = h.dispatcher;
  subscriptions = h.subscriptions;
}
offer_hand-NoneLost (some (e, i ∷ is)) b h =
    let k = at_id-NoneLost i (offered e) b (offered-IsAwake e) h in
    record { dispatcher = k.dispatcher; subscriptions = k.subscriptions }

stop_dispatcher-NoneLost : (b : Bus) → NoneLost b → NoneLost (stop_dispatcher b)
stop_dispatcher-NoneLost b h =
    NoneLost-if _ _ b (λ c. record { dispatcher = refl; subscriptions = h.subscriptions }) (λ c. h)

step-NoneLost : (x : Step) (b : Bus) → NoneLost b → NoneLost (step x b)
unfolding step publish subscribe unsubscribe take offer doze rouse
step-NoneLost (publishes e) b h =
    NoneLost-if _ b _ (λ c. h)
      (λ c. record { dispatcher = ground (arith); subscriptions = h.subscriptions })
step-NoneLost (subscribes t) b h =
    let more =
      All-append IsAwake b.subscribers (new_subscription b.born t ∷ []) h.subscriptions
        (refl, tt) in
    NoneLost-if b.running _ _ (λ c. record { dispatcher = h.dispatcher; subscriptions = more })
      (λ c. record { dispatcher = refl; subscriptions = more })
step-NoneLost (unsubscribes i) b h =
    let left = without-IsAwake i b.subscribers h.subscriptions in
    let c : Bus = record b { subscribers = without i b.subscribers } in
    NoneLost-if (has i b.subscribers) (stop_dispatcher c) b
      (λ r. stop_dispatcher-NoneLost c (record { dispatcher = h.dispatcher; subscriptions = left }))
      (λ r. h)
step-NoneLost takes b h = take_with-NoneLost b.hand b h
step-NoneLost offers b h = offer_hand-NoneLost b.hand b h
step-NoneLost dozes b h = doze_with-NoneLost b.hand b h
step-NoneLost rouses b h =
    NoneLost-if _ _ b (λ c. record { dispatcher = refl; subscriptions = h.subscriptions }) (λ c. h)
step-NoneLost (delivers i) b h = at_id-NoneLost i deliver b deliver-IsAwake h
step-NoneLost (naps i) b h = at_id-NoneLost i napping b napping-IsAwake h
step-NoneLost (stirs i) b h = at_id-NoneLost i stirred b stirred-IsAwake h

-- No wakeup is lost: in every order of steps from a bus where this holds, a dispatcher that waits
-- with an event on the bus, and a subscription that waits with an event in its queue, finds a
-- token in its channel.
pub steps-NoneLost : (xs : List Step) (b : Bus) → NoneLost b → NoneLost (steps xs b)
unfolding steps
steps-NoneLost [] b h = h
steps-NoneLost (x ∷ xs) b h = steps-NoneLost xs (step x b) (step-NoneLost x b h)
