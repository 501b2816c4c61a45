-- ===== src/Core/Bus/Growth.antt =====
-- internal/core/event.go: a subscription's events, from one step to the next.
use marx_agent.Prelude.{
  ℕ, ◌+◌, ◌≡◌, refl, sym, ap, ◌∙◌, Bool, true, false, Option, none, some, List, [], ◌∷◌, ◌++◌, ◌==◌,
  inl, inr, arith, All, if◌then◌else◌, Bool-cases, append-nil, append_assoc,
}
use marx_agent.Core.Session.{EventType, Event}
use marx_agent.Core.Bus.{
  Subscription, Bus, at_id, without, new_subscription, accepts, enqueue, offered, handle, deliver,
  napping, stirred, no_subscribers, publish, subscribe, unsubscribe, take, take_first, take_with,
  doze_with, offer, offer_hand, doze, rouse, Step, publishes, subscribes, unsubscribes, takes,
  offers, dozes, rouses, delivers, naps, stirs, step, steps,
}
use marx_agent.Core.Bus.Lookup.{
  lookup, among, lookup-id, lookup-among, lookup-append, lookup-without, lookup-at_id,
  lookup-at_id_other,
}
use marx_agent.Core.Bus.Order.{
  matching, held, flow, HandUnique, IsWhole, matching-append, told, published, Keeps, Grown,
  offered-id, deliver-id, napping-id, stirred-id, step-IsWhole,
}

someone :
    (i : ℕ) (ss : List Subscription) (s : Subscription)
    → lookup i ss ≡ some s
    → no_subscribers ss ≡ false
someone i [] s h = ground (arith)
someone i (x ∷ ss) s h = refl

Grown-if :
    (i : ℕ) (s : Subscription) (b x y : Bus) (es : List Event) (c : Bool)
    → Grown i s b x es
    → Grown i s b y es
    → Grown i s b (if c then x else y) es
Grown-if i s b x y es true h k = h
Grown-if i s b x y es false h k = k

held-same :
    (t s : Subscription) (h : Option (Event × List ℕ))
    → t.id ≡ s.id
    → t.type ≡ s.type
    → held t h ≡ held s h
held-same t s none p q = refl
held-same t s (some (e, is)) p q = rw (p, q) refl

module _ (i : ℕ) (s : Subscription) (b : Bus) (found : lookup i b.subscribers ≡ some s) where
  Grown-refl : Grown i s b b []
  Grown-refl = (s, found, refl, sym (append-nil _))

  -- The same subscription in a bus that has the same events for it.
  Grown-same :
      (c : Bus)
      → lookup i c.subscribers ≡ some s
      → held s c.hand ++ matching s.type c.incoming ≡ held s b.hand ++ matching s.type b.incoming
      → Grown i s b c []
  Grown-same c h e = (s, h, refl, ap (λ es. (s.handled ++ s.queue) ++ es) e ∙ sym (append-nil _))

  -- A subscription that changes without gaining or losing an event.
  at_id-Grown :
      (f : Subscription → Subscription) (keeps : (t : Subscription) → (f t).id ≡ t.id) (j : ℕ)
      → (f s).type ≡ s.type
      → (f s).handled ++ (f s).queue ≡ s.handled ++ s.queue
      → Grown i s b (record b { subscribers = at_id j f b.subscribers }) []
  at_id-Grown f keeps j same steady = elim (Bool-cases (i == j)) [
    | inl e ↦ (
      f s,
      ground (arith, lookup-at_id f keeps i b.subscribers s found),
      same,
      rw (steady, held-same (f s) s b.hand (keeps s) same, same) (sym (append-nil _)),
    )
    | inr e ↦
        Grown-same (record b { subscribers = at_id j f b.subscribers })
          (lookup-at_id_other f keeps i j b.subscribers (ground (arith)) ∙ found) refl
  ]

  handle_steady :
      (es : List Event)
      → s.queue ≡ es
      → (handle es s).handled ++ (handle es s).queue ≡ s.handled ++ s.queue
  handle_steady [] e = refl
  handle_steady (x ∷ es) e = rw e (append_assoc s.handled (x ∷ []) es)

  handle_type : (es : List Event) → (handle es s).type ≡ s.type
  handle_type [] = refl
  handle_type (x ∷ es) = refl

  publish-Grown : (e : Event) → Grown i s b (publish e b) (matching s.type (e ∷ []))
  unfolding publish
  publish-Grown e =
      rw (someone i b.subscribers s found) (s, found, refl, simp (matching-append, append_assoc))

  take_first-Grown :
      (es : List Event) → b.incoming ≡ es → b.hand ≡ none → Grown i s b (take_first es b) []
  take_first-Grown [] p q = Grown-refl
  take_first-Grown (e ∷ es) p q = Grown-same (take_first (e ∷ es) b) found (
      rw (p, q)
        (ground (arith, lookup-id i b.subscribers s found, lookup-among i b.subscribers s found)))

  take_with-Grown : (o : Option (Event × List ℕ)) → b.hand ≡ o → Grown i s b (take_with o b) []
  take_with-Grown (some x) p = Grown-refl
  take_with-Grown none p = Grown-if i s b _ b [] _ (take_first-Grown b.incoming refl p) Grown-refl

  doze_with-Grown : (o : Option (Event × List ℕ)) → Grown i s b (doze_with o b) []
  doze_with-Grown (some x) = Grown-refl
  doze_with-Grown none =
      Grown-if i s b _ b [] _ (Grown-same (record b { waiting = true }) found refl) Grown-refl

  -- One round of the dispatcher moves the event from its hand to the end of the queue.
  offered-Grown :
      (e : Event) (is : List ℕ)
      → b.hand ≡ some (e, i ∷ is)
      → among i is ≡ false
      → Grown i s b
          (record b { subscribers = at_id i (offered e) b.subscribers; hand = some (e, is) })
          []
  unfolding enqueue
  offered-Grown e is p u =
      let own = lookup-id i b.subscribers s found in
      (
        offered e s,
        lookup-at_id (offered e) (offered-id e) i b.subscribers s found,
        ground (arith),
        elim (Bool-cases (accepts s.type e)) [
          | inl a ↦
              let before : held s b.hand ≡ e ∷ [] = ground (arith, p, own, a) in
              simp (a, own, u, before, append_assoc, append-nil)
          | inr a ↦
              let before : held s b.hand ≡ [] = ground (arith, p, own, a) in
              simp (a, own, u, before, append_assoc, append-nil)
        ],
      )

  offer_hand-Grown :
      (o : Option (Event × List ℕ)) → b.hand ≡ o → HandUnique o → Grown i s b (offer_hand o b) []
  offer_hand-Grown none p u = Grown-refl
  offer_hand-Grown (some (e, [])) p u = Grown-same (record b { hand = none }) found (rw p refl)
  offer_hand-Grown (some (e, j ∷ is)) p u = elim (Bool-cases (j == i)) [
    | inl q ↦
        let same : j ≡ i = ground (arith) in
        rw same (
          offered-Grown e is (p ∙ ap (λ k. some (e, k ∷ is)) same)
            (ap (λ k. among k is) (sym same) ∙ u.0))
    | inr q ↦
        Grown-same
          (record b { subscribers = at_id j (offered e) b.subscribers; hand = some (e, is) })
          (lookup-at_id_other (offered e) (offered-id e) i j b.subscribers (ground (arith)) ∙ found)
          (rw p (ground (arith, lookup-id i b.subscribers s found)))
  ]

  deliver_steady : (deliver s).handled ++ (deliver s).queue ≡ s.handled ++ s.queue
  deliver_steady = elim (Bool-cases s.waiting) [
    | inl w ↦ simp w
    | inr w ↦ simp w (handle_steady s.queue refl)
  ]

  -- One step: the flow of a subscription that stays grows by what is published for it.
  step-Grown :
      (x : Step) → IsWhole b → Keeps i x → Grown i s b (step x b) (matching s.type (told x))
  unfolding step subscribe unsubscribe take offer doze rouse
  step-Grown (publishes e) h k = publish-Grown e
  step-Grown (subscribes t) h k =
      let more = lookup-append i b.subscribers (new_subscription b.born t ∷ []) s found in
      let c : Bus = record b {
        subscribers = b.subscribers ++ new_subscription b.born t ∷ [];
        born = b.born + 1;
      } in
      Grown-if i s b _ _ [] b.running (Grown-same c more refl)
        (Grown-same (record c { running = true; wake = false; waiting = false }) more refl)
  step-Grown (unsubscribes j) h k =
      let left = lookup-without i j b.subscribers k ∙ found in
      rw (someone i (without j b.subscribers) s left) (
        Grown-if i s b _ b [] _
          (Grown-same (record b { subscribers = without j b.subscribers }) left refl) Grown-refl)
  step-Grown takes h k = take_with-Grown b.hand refl
  step-Grown offers h k = offer_hand-Grown b.hand refl h.once
  step-Grown dozes h k = doze_with-Grown b.hand
  step-Grown rouses h k =
      Grown-if i s b _ b [] _ (Grown-same (record b { waiting = false; wake = false }) found refl)
        Grown-refl
  step-Grown (delivers j) h k =
      at_id-Grown deliver deliver-id j (ground (arith, handle_type s.queue)) deliver_steady
  step-Grown (naps j) h k = at_id-Grown napping napping-id j (ground (arith)) (ground (arith))
  step-Grown (stirs j) h k = at_id-Grown stirred stirred-id j (ground (arith)) (ground (arith))

published-told : (x : Step) (xs : List Step) → published (x ∷ xs) ≡ told x ++ published xs
published-told (publishes e) xs = refl
published-told (subscribes t) xs = refl
published-told (unsubscribes j) xs = refl
published-told takes xs = refl
published-told offers xs = refl
published-told dozes xs = refl
published-told rouses xs = refl
published-told (delivers j) xs = refl
published-told (naps j) xs = refl
published-told (stirs j) xs = refl

joined :
    (t : Option EventType) (x : Step) (xs : List Step) (es : List Event)
    → (es ++ matching t (told x)) ++ matching t (published xs)
      ≡ es ++ matching t (published (x ∷ xs))
joined t x xs es = simp (published-told x xs, matching-append, append_assoc)

-- Whatever the goroutines do in whatever order, from a bus whose subscriptions are kept apart and
-- as long as a subscription stays: what it has handled, followed by what lies in its queue, in
-- the dispatcher's hand for it and in the bus for it, grows by the events of its type that are
-- published, each once and in the order of publication.
pub steps-Grown :
    (xs : List Step) (i : ℕ) (s : Subscription) (b : Bus)
    → IsWhole b
    → lookup i b.subscribers ≡ some s
    → All (Keeps i) xs
    → Grown i s b (steps xs b) (matching s.type (published xs))
unfolding steps
steps-Grown [] i s b h found k = Grown-refl i s b found
steps-Grown (x ∷ xs) i s b h found k =
    let (t, there, same, grown) = step-Grown i s b found x h k.0 in
    let (u, then_there, then_same, then_grown) =
      steps-Grown xs i t (step x b) (step-IsWhole x b h) there k.1 in
    (
      u,
      then_there,
      then_same ∙ same,
      then_grown
          ∙ ap (λ k. flow t (step x b) ++ matching k (published xs)) same
          ∙ ap (λ es. es ++ matching s.type (published xs)) grown
          ∙ joined s.type x xs (flow s b),
    )
