-- ===== src/Storage/Pipeline/Bounded.antt =====
-- internal/engine/storage/writebuffer.go: the bytes of the queue, whatever happens around it.
use marx_agent.Prelude.{ℕ, refl, Bool, String, Option, none, some, List, [], ◌∷◌, inr, arith}
use marx_agent.Storage.Buffer.{Record, mark_closed}
use marx_agent.Storage.Buffer.Bounds.{IsBounded, append-IsBounded}
use marx_agent.Storage.Pipeline.{
  Pipeline, Action, appends, takes, writes, syncs, closes, step, steps, take_batch, taken,
  write_batch, write_found, pick, sync_now,
}

taken-IsBounded :
    (d : ℕ) (q : List Record) (p : Pipeline) → IsBounded p.buffer → IsBounded (taken d q p).buffer
taken-IsBounded d [] p k = k
taken-IsBounded d (r ∷ rs) p k = record { counted = refl; within = inr (omega arith) }

write_found-IsBounded :
    (oks : List Bool) (f : Option (List Record) × List (ℕ × List Record)) (p : Pipeline)
    → IsBounded p.buffer
    → IsBounded (write_found oks f p).0.buffer
write_found-IsBounded oks (none, others) p k = k
write_found-IsBounded oks (some batch, others) p k = k

step-IsBounded :
    (valid : String → Bool) (a : Action) (p : Pipeline)
    → IsBounded p.buffer
    → IsBounded (step valid a p).buffer
unfolding step take_batch write_batch sync_now mark_closed
step-IsBounded valid (appends now r) p k = append-IsBounded valid now r p.buffer k
step-IsBounded valid (takes d) p k = taken-IsBounded d p.buffer.pending p k
step-IsBounded valid (writes d oks) p k = write_found-IsBounded oks (pick d p.waiting) p k
step-IsBounded valid (syncs oks) p k = k
step-IsBounded valid closes p k = record { counted = k.counted; within = k.within }

-- Whatever the goroutines do, and however often a sink refuses, the count of the queued bytes
-- stays right, and within the bound of the queue unless at most one record is queued, if this was
-- so at first.
pub steps-IsBounded :
    (valid : String → Bool) (actions : List Action) (p : Pipeline)
    → IsBounded p.buffer
    → IsBounded (steps valid actions p).buffer
unfolding steps
steps-IsBounded valid [] p k = k
steps-IsBounded valid (a ∷ rest) p k =
    steps-IsBounded valid rest (step valid a p) (step-IsBounded valid a p k)
