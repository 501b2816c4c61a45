-- ===== src/Storage/Pipeline.antt =====
-- internal/engine/storage/writebuffer.go: the write buffer, its sinks, and the drains between them.
-- A drain takes the queue under `mu` and writes it later under `writeMu`, so other goroutines act in
-- between: `step` is one such action. A sink takes a batch in one append or refuses it.
pub mod Order
pub mod Numbers
pub mod Bounded
use marx_agent.Prelude.{
  ℕ, zero, suc, ◌+◌, Bool, true, false, ◌&&◌, not, String, Option, none, some, List, [], ◌∷◌, ◌++◌,
  ◌==◌, length, if◌then◌else◌,
}
use marx_agent.Storage.Buffer.{Record, Buffer, Appended, append, mark_closed}

-- What a sink was given, and how much of it Sync has made durable.
pub record Sink : Type 0 where
  pub journal : List Record
  pub synced : ℕ

-- `waiting` has the batches that drains have taken and not written, each with its drain.
pub record Pipeline : Type 0 where
  pub buffer : Buffer
  pub waiting : List (ℕ × List Record)
  pub sinks : List Sink

abbrev pub written : List Record → Sink → Sink
written batch s = record s { journal = s.journal ++ batch }

-- The loop of drain over the sinks, which ends at the first that refuses: `oks` has what each sink
-- answers, and a sink without an answer accepts.
unfoldable pub write_sinks : List Bool → List Record → List Sink → List Sink × Bool
write_sinks oks batch [] = ([], true)
write_sinks [] batch (s ∷ ss) =
    let (after, ok) = write_sinks [] batch ss in (written batch s ∷ after, ok)
write_sinks (ok ∷ oks) batch (s ∷ ss) =
    let (after, ok') = write_sinks oks batch ss in
    if ok then (written batch s ∷ after, ok') else (s ∷ ss, false)

abbrev pub durable : Sink → Sink
durable s = record s { synced = length s.journal }

-- syncSinksLocked.
unfoldable pub sync_sinks : List Bool → List Sink → List Sink × Bool
sync_sinks oks [] = ([], true)
sync_sinks [] (s ∷ ss) = let (after, ok) = sync_sinks [] ss in (durable s ∷ after, ok)
sync_sinks (ok ∷ oks) (s ∷ ss) =
    let (after, ok') = sync_sinks oks ss in if ok then (durable s ∷ after, ok') else (s ∷ ss, false)

-- The batch of a drainer, and the other batches.
unfoldable pub pick : ℕ → List (ℕ × List Record) → Option (List Record) × List (ℕ × List Record)
pick d [] = (none, [])
pick d ((e, batch) ∷ rest) =
    let (found, others) = pick d rest in
    if d == e then (some batch, rest) else (found, (e, batch) ∷ others)

abbrev pub taken : ℕ → List Record → Pipeline → Pipeline
taken d [] p = p
taken d (r ∷ rs) p = record p {
  buffer = record p.buffer { pending = []; bytes = 0 };
  waiting = p.waiting ++ (d, r ∷ rs) ∷ [];
}

-- The part of drain under `mu`.
unfoldable pub take_batch : ℕ → Pipeline → Pipeline
take_batch d p = taken d p.buffer.pending p

-- The part of drain under `writeMu`.
abbrev pub write_found :
    List Bool → Option (List Record) × List (ℕ × List Record) → Pipeline → Pipeline × Bool
write_found oks (none, others) p = (p, true)
write_found oks (some batch, others) p =
    let (after, ok) = write_sinks oks batch p.sinks in
    (record p { waiting = others; sinks = after }, ok)

unfoldable pub write_batch : ℕ → List Bool → Pipeline → Pipeline × Bool
write_batch d oks p = write_found oks (pick d p.waiting) p

unfoldable pub sync_now : List Bool → Pipeline → Pipeline × Bool
sync_now oks p = let (after, ok) = sync_sinks oks p.sinks in (record p { sinks = after }, ok)

pub data Action : Type 0 where
  appends : ℕ → Record → Action
  takes : ℕ → Action
  writes : ℕ → List Bool → Action
  syncs : List Bool → Action
  closes : Action

module _ (valid : String → Bool) where
  unfoldable pub step : Action → Pipeline → Pipeline
  step (appends now r) p = record p { buffer = (append valid now r p.buffer).1 }
  step (takes d) p = take_batch d p
  step (writes d oks) p = (write_batch d oks p).0
  step (syncs oks) p = (sync_now oks p).0
  step closes p = record p { buffer = mark_closed p.buffer }

  unfoldable pub steps : List Action → Pipeline → Pipeline
  steps [] p = p
  steps (a ∷ rest) p = steps rest (step a p)
