-- ===== src/Storage/Buffer/Kept.antt =====
-- internal/engine/storage/writebuffer.go, Append: what becomes of the queue.
use marx_agent.Prelude.{
  Within, Within-refl, ℕ, ◌+◌, ◌-◌, ◌/◌, ◌≡◌, ◌⊎◌, refl, Bool, true, false, ◌||◌, String, List, [],
  ◌∷◌, ◌++◌, ltb, is_empty, if◌then◌else◌, inl, inr, Bool-cases, append-nil,
}
use marx_agent.Storage.Buffer.{
  Record, Buffer, Appended, accepted, overflowed, refused, AppendError, empty_stream, empty_type,
  invalid_data, buffer_closed, filled, append, append_open, enqueue, settle_queue, drop_overflow,
  wake, is_over, is_full, record_bytes, wake_if,
}

abbrev pub entered : Appended → List Record
entered (accepted r) = r ∷ []
entered (overflowed r) = r ∷ []
entered (refused e) = []

drop_overflow-Within :
    (limit : ℕ) (rs : List Record) (bytes dropped : ℕ)
    → Within (drop_overflow limit rs bytes dropped).pending rs
unfolding drop_overflow
drop_overflow-Within limit [] bytes dropped = Within.slnil
drop_overflow-Within limit (r ∷ []) bytes dropped = Within-refl (r ∷ [])
drop_overflow-Within limit (r ∷ s ∷ rs) bytes dropped =
    let rest = drop_overflow-Within limit (s ∷ rs) (bytes - record_bytes r) (dropped + 1) in
    elim (Bool-cases (ltb limit bytes)) [
      | inl over ↦ simp over (Within.cons rest)
      | inr fits ↦ simp fits (Within-refl (r ∷ s ∷ rs))
    ]

pub settle_queue-Within : (b : Buffer) → Within (settle_queue b).pending b.pending
unfolding settle_queue
settle_queue-Within b = elim (Bool-cases (is_over b)) [
  | inl over ↦
      simp over (drop_overflow-Within (b.config.queue_bytes / 2) b.pending b.bytes b.dropped)
  | inr fits ↦ simp fits (Within-refl b.pending)
]

pub wake_if-pending : (told : Bool) (b : Buffer) → (wake_if told b).pending ≡ b.pending
unfolding wake
wake_if-pending true b = refl
wake_if-pending false b = refl

entered_if :
    (over : Bool) (r : Record) → entered (if over then overflowed r else accepted r) ≡ r ∷ []
entered_if true r = refl
entered_if false r = refl

pub append_open-entered :
    (r : Record) (b : Buffer) → entered (append_open r b).0 ≡ (enqueue r b).0 ∷ []
unfolding append_open
append_open-entered r b = entered_if (is_over (enqueue r b).1) (enqueue r b).0

append_open-Within :
    (r : Record) (b : Buffer)
    → Within (append_open r b).1.pending (b.pending ++ entered (append_open r b).0)
unfolding append_open enqueue
append_open-Within r b =
    let queued = (enqueue r b).1 in
    let settled = settle_queue queued in
    let same = wake_if-pending (is_full settled || is_over queued) settled in
    let one = entered_if (is_over queued) (enqueue r b).0 in
    simp (same, one) (settle_queue-Within queued)

-- Append refuses the record, or puts it into a buffer that is open.
abbrev pub Outcome : (String → Bool) → ℕ → Record → Buffer → Type 0
Outcome valid now r b =
    ((e : AppendError) × (append valid now r b ≡ (refused e, b)))
    ⊎ (append valid now r b ≡ append_open (filled now r) b)

pub append-Outcome :
    (valid : String → Bool) (now : ℕ) (r : Record) (b : Buffer) → Outcome valid now r b
unfolding append
append-Outcome valid now r b = elim (Bool-cases (is_empty r.stream)) [
  | inl h ↦ inl (empty_stream, simp h refl)
  | inr h ↦ elim (Bool-cases (is_empty r.type)) [
    | inl k ↦ inl (empty_type, simp (h, k) refl)
    | inr k ↦ elim (Bool-cases (valid (filled now r).raw_data)) [
      | inl v ↦ elim (Bool-cases b.closed) [
        | inl c ↦ inl (buffer_closed, simp (h, k, v, c) refl)
        | inr c ↦ inr (simp (h, k, v, c) refl)
      ]
      | inr v ↦ inl (invalid_data, simp (h, k, v) refl)
    ]
  ]
]

pub append-Within :
    (valid : String → Bool) (now : ℕ) (r : Record) (b : Buffer)
    → Within (append valid now r b).1.pending (b.pending ++ entered (append valid now r b).0)
append-Within valid now r b = elim (append-Outcome valid now r b) [
  | inl (e, q) ↦ simp (q, append-nil) (Within-refl b.pending)
  | inr q ↦ rw q (append_open-Within (filled now r) b)
]
