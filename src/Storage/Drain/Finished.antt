-- ===== src/Storage/Drain/Finished.antt =====
-- internal/engine/storage/writebuffer.go: what Flush and Close leave behind.
use marx_agent.Prelude.{
  ℕ, ◌≡◌, refl, sym, ap, ◌∙◌, Bool, true, false, ◌&&◌, String, Option, none, some, List, [], ◌∷◌,
  map, ◌==◌, inl, inr, arith, Bool-cases, is_empty, append-nil,
}
use marx_agent.Storage.Buffer.{
  Record, Buffer, AppendError, refused, append, mark_closed, filled, empty_stream, empty_type,
  invalid_data, buffer_closed,
}
use marx_agent.Storage.Pipeline.{
  Sink, Pipeline, take_batch, write_batch, write_found, write_sinks, written, durable, sync_now,
  sync_sinks, pick,
}
use marx_agent.Storage.Drain.{
  drain, drain_queue, flush, Round, append_all, arrive, is_none, is_idle, drain_rounds, drain_all,
  close, sync_if, sync_quietly, sync_after,
}

write_found-pending :
    (oks : List Bool) (f : Option (List Record) × List (ℕ × List Record)) (p : Pipeline)
    → (write_found oks f p).0.buffer.pending ≡ p.buffer.pending
write_found-pending oks (none, others) p = refl
write_found-pending oks (some batch, others) p = refl

sync_if-pending :
    (sync : Bool) (answers : List Bool) (r : Pipeline × Bool)
    → (sync_if sync answers r).0.buffer.pending ≡ r.0.buffer.pending
unfolding sync_now
sync_if-pending true answers (p, true) = refl
sync_if-pending true answers (p, false) = refl
sync_if-pending false answers (p, ok) = refl

sync_quietly-pending :
    (sync : Bool) (answers : List Bool) (p : Pipeline)
    → (sync_quietly sync answers p).buffer.pending ≡ p.buffer.pending
unfolding sync_now
sync_quietly-pending true answers p = refl
sync_quietly-pending false answers p = refl

drain_queue-pending :
    (d : ℕ) (oks : List Bool) (sync : Bool) (answers : List Bool) (q : List Record) (p : Pipeline)
    → p.buffer.pending ≡ q
    → (drain_queue d oks sync answers q p).0.buffer.pending ≡ []
unfolding take_batch write_batch
drain_queue-pending d oks sync answers [] p h = sync_quietly-pending sync answers p ∙ h
drain_queue-pending d oks sync answers (r ∷ rs) p h =
    let batch = take_batch d p in
    let gone : batch.buffer.pending ≡ [] = simp h refl in
    sync_if-pending sync answers (write_batch d oks batch)
    ∙ write_found-pending oks (pick d batch.waiting) batch
    ∙ gone

is_none-nil : (rs : List Record) → is_none rs ≡ true → rs ≡ []
is_none-nil [] h = refl
is_none-nil (r ∷ rs) h = ground arith

module _ (valid : String → Bool) (d : ℕ) where
  drain_rounds-pending :
      (rounds : List Round) (p : Pipeline)
      → (drain_rounds valid d rounds p).1 ≡ true
      → (drain_rounds valid d rounds p).0.buffer.pending ≡ []
  unfolding drain_rounds drain
  drain_rounds-pending [] p h = drain_queue-pending d [] false [] p.buffer.pending p refl
  drain_rounds-pending (round ∷ rounds) p h =
      let (drained, ok) = drain d round.oks false [] p in
      let after = arrive valid round.arrivals drained in
      let rest = drain_rounds-pending rounds after in
      elim (Bool-cases ok) [
        | inl fine ↦ elim (Bool-cases (is_idle after)) [
          | inl idle ↦ simp (fine, idle) (is_none-nil after.buffer.pending idle)
          | inr busy ↦
              let later : (drain_rounds valid d rounds after).1 ≡ true = simp (fine, busy) at h in
              simp (fine, busy) (rest later)
        ]
        | inr bad ↦ let off : false ≡ true = simp bad at h in ground (arith, off)
      ]

  sync_after-pending :
      (answers : List Bool) (r : Pipeline × Bool)
      → (sync_after valid d true answers r).0.buffer.pending ≡ r.0.buffer.pending
  sync_after-pending answers (p, true) = sync_quietly-pending true answers p
  sync_after-pending answers (p, false) = refl

  sync_after-ok :
      (answers : List Bool) (r : Pipeline × Bool) → (sync_after valid d true answers r).1 ≡ r.1
  sync_after-ok answers (p, true) = refl
  sync_after-ok answers (p, false) = refl

  -- A Close that returns no error leaves nothing in the queue, whatever others append during its
  -- drains, if nothing arrives between its last look at the queue and the moment it stops Append.
  pub close-pending :
      (rounds : List Round) (answers : List Bool) (p : Pipeline)
      → (close valid d rounds answers [] p).1 ≡ true
      → (close valid d rounds answers [] p).0.buffer.pending ≡ []
  unfolding close drain_all append_all mark_closed
  close-pending rounds answers p h =
      let r = drain_rounds valid d rounds p in
      sync_after-pending answers r
      ∙ drain_rounds-pending rounds p (sym (sync_after-ok answers r) ∙ h)

  closed-append :
      (now : ℕ) (r : Record) (b : Buffer)
      → b.closed ≡ true
      → (e : AppendError) × (append valid now r b ≡ (refused e, b))
  unfolding append
  closed-append now r b h = elim (Bool-cases (is_empty r.stream)) [
    | inl k ↦ (empty_stream, simp k refl)
    | inr k ↦ elim (Bool-cases (is_empty r.type)) [
      | inl l ↦ (empty_type, simp (k, l) refl)
      | inr l ↦ elim (Bool-cases (valid (filled now r).raw_data)) [
        | inl v ↦ (buffer_closed, simp (k, l, v, h) refl)
        | inr v ↦ (invalid_data, simp (k, l, v) refl)
      ]
    ]
  ]

  -- Whether or not Close returns an error, Append refuses every record after it and changes
  -- nothing.
  pub close-append :
      (rounds : List Round) (answers : List Bool) (late : List (ℕ × Record)) (p : Pipeline)
      (now : ℕ) (r : Record)
      → (e : AppendError) × (append valid now r (close valid d rounds answers late p).0.buffer
          ≡ (refused e, (close valid d rounds answers late p).0.buffer))
  unfolding close mark_closed
  close-append rounds answers late p now r =
      closed-append now r (close valid d rounds answers late p).0.buffer refl

abbrev pub all_accept : List Bool → Bool
all_accept [] = true
all_accept (ok ∷ oks) = ok && all_accept oks

write_sinks_accepted :
    (oks : List Bool) (batch : List Record) (ss : List Sink)
    → all_accept oks ≡ true
    → write_sinks oks batch ss ≡ (map (written batch) ss, true)
unfolding write_sinks
write_sinks_accepted oks batch [] h = refl
write_sinks_accepted [] batch (s ∷ ss) h = simp (write_sinks_accepted [] batch ss h) refl
write_sinks_accepted (true ∷ oks) batch (s ∷ ss) h = simp (write_sinks_accepted oks batch ss h) refl
write_sinks_accepted (false ∷ oks) batch (s ∷ ss) h = ground arith

sync_sinks_accepted :
    (answers : List Bool) (ss : List Sink)
    → all_accept answers ≡ true
    → sync_sinks answers ss ≡ (map durable ss, true)
unfolding sync_sinks
sync_sinks_accepted answers [] h = refl
sync_sinks_accepted [] (s ∷ ss) h = simp (sync_sinks_accepted [] ss h) refl
sync_sinks_accepted (true ∷ answers) (s ∷ ss) h = simp (sync_sinks_accepted answers ss h) refl
sync_sinks_accepted (false ∷ answers) (s ∷ ss) h = ground arith

-- The sink has all that was queued behind what it had, and all of it is durable.
abbrev pub settled_sink : List Record → Sink → Sink
settled_sink queue s = durable (written queue s)

map-durable-written :
    (queue : List Record) (ss : List Sink)
    → map durable (map (written queue) ss) ≡ map (settled_sink queue) ss
map-durable-written queue [] = refl
map-durable-written queue (s ∷ ss) = ap (◌∷◌ (settled_sink queue s)) (map-durable-written queue ss)

map-durable_nil : (ss : List Sink) → map durable ss ≡ map (settled_sink []) ss
map-durable_nil [] = refl
map-durable_nil (s ∷ ss) = simp append-nil (ap (◌∷◌ (durable s)) (map-durable_nil ss))

drain_queue-settled :
    (d : ℕ) (oks answers : List Bool) (q : List Record) (p : Pipeline)
    → p.waiting ≡ []
    → all_accept oks ≡ true
    → all_accept answers ≡ true
    → p.buffer.pending ≡ q
    → (drain_queue d oks true answers q p).0.sinks ≡ map (settled_sink q) p.sinks
unfolding sync_now take_batch write_batch pick
drain_queue-settled d oks answers [] p w h k e =
    simp (sync_sinks_accepted answers p.sinks k) (map-durable_nil p.sinks)
drain_queue-settled d oks answers (r ∷ rs) p w h k e =
    let self : (d == d) ≡ true = ground arith in
    let sinks = map (written (r ∷ rs)) p.sinks in
    simp
      (e, w, self, write_sinks_accepted oks (r ∷ rs) p.sinks h, sync_sinks_accepted answers sinks k)
      (map-durable-written (r ∷ rs) p.sinks)

-- Where no other drain is at work and every sink accepts, every sink has after Flush all that was
-- queued behind what it had, and all of it is durable.
pub flush-settled :
    (d : ℕ) (oks answers : List Bool) (p : Pipeline)
    → p.waiting ≡ []
    → all_accept oks ≡ true
    → all_accept answers ≡ true
    → (flush d oks answers p).0.sinks ≡ map (settled_sink p.buffer.pending) p.sinks
unfolding flush drain
flush-settled d oks answers p w h k =
    drain_queue-settled d oks answers p.buffer.pending p w h k refl
