-- ===== src/Storage/Drain.antt =====
-- internal/engine/storage/writebuffer.go: Flush, drainAll and Close, as one goroutine runs them
-- while no other drain is at work. What the others append in between is given by the rounds.
pub mod Finished
use marx_agent.Prelude.{ℕ, Bool, true, false, String, List, [], ◌∷◌, if◌then◌else◌}
use marx_agent.Storage.Buffer.{Record, Buffer, append, mark_closed}
use marx_agent.Storage.Pipeline.{Pipeline, take_batch, write_batch, sync_now}

-- `syncSinks` under the lock, where drain has to sync.
abbrev pub sync_if : Bool → List Bool → Pipeline × Bool → Pipeline × Bool
sync_if true answers (p, true) = sync_now answers p
sync_if _ answers (p, ok) = (p, ok)

-- An error of syncSinks is dropped.
abbrev pub sync_quietly : Bool → List Bool → Pipeline → Pipeline
sync_quietly true answers p = (sync_now answers p).0
sync_quietly false answers p = p

abbrev pub drain_queue : ℕ → List Bool → Bool → List Bool → List Record → Pipeline → Pipeline × Bool
drain_queue d oks sync answers [] p = (sync_quietly sync answers p, true)
drain_queue d oks sync answers (r ∷ rs) p =
    sync_if sync answers (write_batch d oks (take_batch d p))

-- drain by the goroutine `d`: what the sinks answer to Write, whether to sync, what they answer to
-- Sync. It tells whether it returned no error.
unfoldable pub drain : ℕ → List Bool → Bool → List Bool → Pipeline → Pipeline × Bool
drain d oks sync answers p = drain_queue d oks sync answers p.buffer.pending p

unfoldable pub flush : ℕ → List Bool → List Bool → Pipeline → Pipeline × Bool
flush d oks answers p = drain d oks true answers p

-- One round of the loop of drainAll: what the sinks answer, and what the others append before the
-- queue is looked at, each record with the clock.
pub record Round : Type 0 where
  pub oks : List Bool
  pub arrivals : List (ℕ × Record)

unfoldable pub append_all : (String → Bool) → List (ℕ × Record) → Buffer → Buffer
append_all valid [] b = b
append_all valid ((now, r) ∷ rest) b = append_all valid rest (append valid now r b).1

abbrev pub arrive : (String → Bool) → List (ℕ × Record) → Pipeline → Pipeline
arrive valid rs p = record p { buffer = append_all valid rs p.buffer }

abbrev pub is_none : List Record → Bool
is_none [] = true
is_none (r ∷ rs) = false

-- Queued() == 0.
abbrev pub is_idle : Pipeline → Bool
is_idle p = is_none p.buffer.pending

module _ (valid : String → Bool) (d : ℕ) where
  -- The loop of drainAll. Behind the last round the sinks accept and nothing arrives.
  unfoldable pub drain_rounds : List Round → Pipeline → Pipeline × Bool
  drain_rounds [] p = drain d [] false [] p
  drain_rounds (round ∷ rounds) p =
      let (drained, ok) = drain d round.oks false [] p in
      let after : Pipeline = arrive valid round.arrivals drained in
      let rest = drain_rounds rounds after in
      if ok then (if is_idle after then (after, true) else rest) else (drained, false)

  abbrev pub sync_after : Bool → List Bool → Pipeline × Bool → Pipeline × Bool
  sync_after sync answers (p, true) = (sync_quietly sync answers p, true)
  sync_after sync answers (p, false) = (p, false)

  unfoldable pub drain_all : List Round → Bool → List Bool → Pipeline → Pipeline × Bool
  drain_all rounds sync answers p = sync_after sync answers (drain_rounds rounds p)

  -- Close, with what arrives between the last look at the queue and markClosed.
  unfoldable pub close : List Round → List Bool → List (ℕ × Record) → Pipeline → Pipeline × Bool
  close rounds answers late p =
      let (drained, ok) = drain_all rounds true answers p in
      let after : Pipeline = arrive valid late drained in
      (record after { buffer = mark_closed after.buffer }, ok)
