-- ===== src/Storage/Buffer/Bounds.antt =====
-- internal/engine/storage/writebuffer.go: the bytes that the queue is counted to hold.
use marx_agent.Prelude.{
  ℕ, ◌+◌, ◌-◌, ◌/◌, ◌≤◌, ◌≡◌, ◌⊎◌, refl, Bool, true, false, ◌||◌, String, List, [], ◌∷◌, ◌++◌, ltb,
  length, inl, inr, arith, Bool-cases,
}
use marx_agent.Storage.Buffer.{
  Record, Buffer, Queue, append, append_open, enqueue, settle_queue, drop_overflow, record_bytes,
  filled, wake, wake_if, is_full, is_over,
}
use marx_agent.Storage.Buffer.Kept.{append-Outcome}

abbrev pub total : List Record → ℕ
total [] = 0
total (r ∷ rs) = record_bytes r + total rs

total-append : (xs ys : List Record) → total (xs ++ ys) ≡ total xs + total ys
total-append [] ys = omega arith
total-append (x ∷ xs) ys = omega (arith, total-append xs ys)

-- The counter is right, and within the bound of the queue unless a single record is over it.
pub record IsBounded (b : Buffer) : Type 0 where
  pub counted : b.bytes ≡ total b.pending
  pub within : (b.bytes ≤ b.config.queue_bytes) ⊎ (length b.pending ≤ 1)

abbrev Drained : ℕ → List Record → ℕ → Queue → Type 0
Drained limit rs dropped q =
    (q.bytes ≡ total q.pending)
    × ((q.bytes ≤ limit) ⊎ (length q.pending ≤ 1))
    × (q.dropped + length q.pending ≡ dropped + length rs)

drop_overflow-Drained :
    (limit : ℕ) (rs : List Record) (bytes dropped : ℕ)
    → bytes ≡ total rs
    → Drained limit rs dropped (drop_overflow limit rs bytes dropped)
unfolding drop_overflow
drop_overflow-Drained limit [] bytes dropped h = (h, inr (omega arith), refl)
drop_overflow-Drained limit (r ∷ []) bytes dropped h = (h, inr (omega arith), refl)
drop_overflow-Drained limit (r ∷ s ∷ rs) bytes dropped h =
    let left : bytes - record_bytes r ≡ total (s ∷ rs) = omega (arith, h) in
    let (counted, within, same) =
      drop_overflow-Drained limit (s ∷ rs) (bytes - record_bytes r) (dropped + 1) left in
    elim (Bool-cases (ltb limit bytes)) [
      | inl over ↦ simp over (counted, within, omega (arith, same))
      | inr fits ↦ simp fits (h, inl (ground (arith, fits)), refl)
    ]

settle_queue-IsBounded : (b : Buffer) → b.bytes ≡ total b.pending → IsBounded (settle_queue b)
unfolding settle_queue
settle_queue-IsBounded b h =
    let limit = b.config.queue_bytes / 2 in
    let (counted, within, same) = drop_overflow-Drained limit b.pending b.bytes b.dropped h in
    elim (Bool-cases (is_over b)) [
      | inl over ↦ simp over (record { counted = counted; within = weaken within })
      | inr fits ↦ simp fits (record { counted = h; within = inl (ground (arith, fits)) })
    ]
  where
    weaken :
        {n m : ℕ} → (n ≤ b.config.queue_bytes / 2) ⊎ (m ≤ 1) → (n ≤ b.config.queue_bytes) ⊎ (m ≤ 1)
    weaken (inl h) = inl (omega (arith, h))
    weaken (inr h) = inr h

wake_if-IsBounded : (told : Bool) (b : Buffer) → IsBounded b → IsBounded (wake_if told b)
unfolding wake
wake_if-IsBounded true b k = record { counted = k.counted; within = k.within }
wake_if-IsBounded false b k = k

append_open-IsBounded : (r : Record) (b : Buffer) → IsBounded b → IsBounded (append_open r b).1
unfolding append_open enqueue
append_open-IsBounded r b k =
    let queued = (enqueue r b).1 in
    let settled = settle_queue queued in
    let new = (enqueue r b).0 in
    wake_if-IsBounded (is_full settled || is_over queued) settled
      (settle_queue-IsBounded queued (omega (arith, k.counted, total-append b.pending (new ∷ []))))

-- Append keeps the count of the queued bytes right, and the queue within its bound unless a single
-- record is over it, whatever it is given.
pub append-IsBounded :
    (valid : String → Bool) (now : ℕ) (r : Record) (b : Buffer)
    → IsBounded b
    → IsBounded (append valid now r b).1
append-IsBounded valid now r b k = elim (append-Outcome valid now r b) [
  | inl (e, q) ↦ simp q k
  | inr q ↦ simp q (append_open-IsBounded (filled now r) b k)
]
