-- ===== src/Storage/Pipeline/Numbers.antt =====
-- internal/engine/storage/writebuffer.go: the sequence numbers of a stream.
use mathlib.Core.Path.{subst}
use marx_agent.Prelude.{
  ℕ, ◌+◌, ◌%◌, ◌^◌, ◌≡◌, refl, sym, ap, ◌∙◌, Option, none, some, Bool, true, false, ◌||◌, String,
  List, [], ◌∷◌, ◌++◌, if◌then◌else◌, inl, inr, Bool-cases, str_eq, str_eq_refl, str_eq_iff,
}
use marx_agent.Storage.Buffer.{
  Record, Buffer, append_open, enqueue, settle_queue, count_stream, filled, wake, wake_if, is_full,
  is_over, mark_closed,
}
use marx_agent.Storage.Buffer.Kept.{append-Outcome, append_open-entered}
use marx_agent.Storage.Pipeline.{
  Pipeline, Action, appends, takes, writes, syncs, closes, step, take_batch, taken, write_batch,
  write_found, pick, sync_now,
}
use marx_agent.Storage.Pipeline.Order.{entering, entered_by}

abbrev pub next : ℕ → ℕ
next n = (n + 1) % 2 ^ 64

-- The records of the stream have the numbers behind `n`, without a gap.
abbrev pub Numbered : String → ℕ → List Record → Type 0
Numbered s n [] = Unit
Numbered s n (r ∷ rs) =
    if str_eq s r.stream then (r.seq ≡ next n) × Numbered s (next n) rs else Numbered s n rs

-- The number that the stream has come to, behind those records.
abbrev pub last_number : String → ℕ → List Record → ℕ
last_number s n [] = n
last_number s n (r ∷ rs) = last_number s (if str_eq s r.stream then next n else n) rs

settle_queue-seq : (b : Buffer) → (settle_queue b).seq ≡ b.seq
unfolding settle_queue
settle_queue-seq b = elim (Bool-cases (is_over b)) [ inl h ↦ simp h refl | inr h ↦ simp h refl ]

wake_if-seq : (told : Bool) (b : Buffer) → (wake_if told b).seq ≡ b.seq
unfolding wake
wake_if-seq true b = refl
wake_if-seq false b = refl

append_open-seq : (r : Record) (b : Buffer) → (append_open r b).1.seq ≡ count_stream r.stream b.seq
unfolding append_open enqueue
append_open-seq r b =
    let queued = (enqueue r b).1 in
    let settled = settle_queue queued in
    wake_if-seq (is_full settled || is_over queued) settled ∙ settle_queue-seq queued

-- What one action brings in continues the numbers of each stream.
abbrev Continues : String → List Record → Buffer → Buffer → Type 0
Continues s new b after = Numbered s (b.seq s) new × (after.seq s ≡ last_number s (b.seq s) new)

enqueue-Continues :
    (s : String) (r : Record) (b : Buffer) → Continues s ((enqueue r b).0 ∷ []) b (enqueue r b).1
unfolding enqueue count_stream
enqueue-Continues s r b = elim (Bool-cases (str_eq s r.stream)) [
  | inl h ↦
      let same : r.stream ≡ s = sym ((str_eq_iff s r.stream).0 h) in
      simp (same, str_eq_refl s) ((refl, tt), refl)
  | inr h ↦ simp h (tt, refl)
]

taken-seq : (d : ℕ) (q : List Record) (p : Pipeline) → (taken d q p).buffer.seq ≡ p.buffer.seq
taken-seq d [] p = refl
taken-seq d (r ∷ rs) p = refl

write_found-buffer :
    (oks : List Bool) (f : Option (List Record) × List (ℕ × List Record)) (p : Pipeline)
    → (write_found oks f p).0.buffer ≡ p.buffer
write_found-buffer oks (none, others) p = refl
write_found-buffer oks (some batch, others) p = refl

step-Continues :
    (valid : String → Bool) (s : String) (a : Action) (p : Pipeline)
    → Continues s (entering valid a p) p.buffer (step valid a p).buffer
unfolding step take_batch write_batch sync_now mark_closed count_stream enqueue
step-Continues valid s (appends now r) p = elim (append-Outcome valid now r p.buffer) [
  | inl (e, q) ↦ simp q (tt, refl)
  | inr q ↦
      let full = filled now r in
      let counted = ap (λ f. f s) (append_open-seq full p.buffer) in
      simp (q, append_open-entered full p.buffer, counted) (enqueue-Continues s full p.buffer)
]
step-Continues valid s (takes d) p = (tt, ap (λ f. f s) (taken-seq d p.buffer.pending p))
step-Continues valid s (writes d oks) p =
    (tt, ap (λ b. b.seq s) (write_found-buffer oks (pick d p.waiting) p))
step-Continues valid s (syncs oks) p = (tt, refl)
step-Continues valid s closes p = (tt, refl)

Numbered-append :
    (s : String) (n : ℕ) (xs ys : List Record)
    → Numbered s n xs
    → Numbered s (last_number s n xs) ys
    → Numbered s n (xs ++ ys)
Numbered-append s n [] ys h k = k
Numbered-append s n (x ∷ xs) ys h k = elim (Bool-cases (str_eq s x.stream)) [
  | inl same ↦
      let first : (x.seq ≡ next n) × Numbered s (next n) xs = simp same at h in
      let more : Numbered s (last_number s (next n) xs) ys = simp same at k in
      simp same (first.0, Numbered-append s (next n) xs ys first.1 more)
  | inr other ↦
      let first : Numbered s n xs = simp other at h in
      let more : Numbered s (last_number s n xs) ys = simp other at k in
      simp other (Numbered-append s n xs ys first more)
]

-- Whatever the goroutines do, and whatever the sinks answer, the records of a stream that enter
-- the queue have consecutive numbers modulo 2^64, in the order in which they enter, behind the
-- one that the buffer had come to.
pub entered_by-Numbered :
    (valid : String → Bool) (s : String) (actions : List Action) (p : Pipeline)
    → Numbered s (p.buffer.seq s) (entered_by valid actions p)
unfolding entered_by
entered_by-Numbered valid s [] p = tt
entered_by-Numbered valid s (a ∷ rest) p =
    let (first, place) = step-Continues valid s a p in
    let more = entered_by-Numbered valid s rest (step valid a p) in
    Numbered-append s (p.buffer.seq s) (entering valid a p) (entered_by valid rest (step valid a p))
      first (subst (λ n. Numbered s n (entered_by valid rest (step valid a p))) place more)
