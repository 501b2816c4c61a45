-- ===== src/Storage/Tests.antt =====
-- internal/engine/storage/writebuffer.go: a buffer over a journal and a ledger.
mod Crash
use marx_agent.Prelude.{
  ℕ, ◌+◌, ◌≡◌, ◌≤◌, ◌⊎◌, refl, String, Bool, true, false, not, List, [], ◌∷◌, ◌++◌, map, is_empty,
  length, Within, inr, arith,
}
use marx_agent.Storage.Buffer.{
  Config, Record, Buffer, AppendError, refused, with_defaults, new_buffer, append, append_open,
  enqueue, settle_queue, drop_overflow, record_bytes, count_stream, wake, mark_closed,
}
use marx_agent.Storage.Buffer.Kept.{entered}
use marx_agent.Storage.Buffer.Bounds.{IsBounded}
use marx_agent.Storage.Pipeline.{
  Sink, Pipeline, Action, appends, takes, writes, syncs, closes, step, steps, take_batch,
  write_batch, write_sinks, sync_sinks, sync_now, pick,
}
use marx_agent.Storage.Pipeline.Order.{contents, entered_by, all_in_turn, steps-Within, journal_of}
use marx_agent.Storage.Pipeline.Numbers.{Numbered, entered_by-Numbered}
use marx_agent.Storage.Pipeline.Bounded.{steps-IsBounded}
use marx_agent.Storage.Drain.{drain, flush, Round, append_all, drain_rounds, drain_all, close}
use marx_agent.Storage.Drain.Finished.{close-pending, close-append, flush-settled, settled_sink}

-- Names what the runs below compute with.
unfoldable program : Unit {0}
unfolding with_defaults new_buffer append append_open enqueue settle_queue drop_overflow
    record_bytes count_stream wake mark_closed step steps take_batch write_batch write_sinks
    sync_sinks sync_now pick entered_by all_in_turn drain flush append_all drain_rounds drain_all
    close
program = tt

abbrev valid : String → Bool
valid text = not (is_empty text)

abbrev note : String → Record
note text = record { stream = "s"; seq = 0; type = "event"; raw_data = text; ts = 1 }

abbrev sink : Sink
sink = record { journal = []; synced = 0 }

abbrev small : Config
small = record { watermark_records = 2; watermark_bytes = 0; flush_period = 0; queue_bytes = 150 }

abbrev pipeline : Pipeline
unfolding new_buffer with_defaults
pipeline = record { buffer = new_buffer small; waiting = []; sinks = sink ∷ sink ∷ [] }

abbrev in_order : List Action
in_order =
    appends 0 (note "a") ∷ takes 0 ∷ appends 0 (note "b") ∷ takes 1 ∷ writes 0 [] ∷ writes 1 [] ∷ []

abbrev overtaking : List Action
overtaking =
    appends 0 (note "a") ∷ takes 0 ∷ appends 0 (note "b") ∷ takes 1 ∷ writes 1 [] ∷ writes 0 [] ∷ []

abbrev numbers : List Record → List ℕ
numbers rs = map (λ r. r.seq) rs

kept_order : numbers (journal_of (steps valid in_order pipeline).sinks) ≡ 1 ∷ 2 ∷ []
unfolding program
kept_order = refl

-- Two drains that overlap may write the journal out of order.
lost_order : numbers (journal_of (steps valid overtaking pipeline).sinks) ≡ 2 ∷ 1 ∷ []
unfolding program
lost_order = refl

-- A sink that refuses a batch loses it.
lost_batch :
    contents (steps valid (appends 0 (note "a") ∷ takes 0 ∷ writes 0 (false ∷ []) ∷ []) pipeline)
    ≡ []
unfolding program
lost_batch = refl

-- A record that Append accepts while Close ends stays in the queue.
left_over : numbers (close valid 0 [] [] ((0, note "a") ∷ []) pipeline).0.buffer.pending ≡ 1 ∷ []
unfolding program
left_over = refl

-- Close tells of no error when Sync fails.
not_durable :
    (close valid 0 [] (false ∷ []) [] (steps valid (appends 0 (note "a") ∷ []) pipeline)).1 ≡ true
unfolding program
not_durable = refl

overflow :
    numbers
      (steps valid
        (appends 0 (note "a") ∷ appends 0 (note "b") ∷ appends 0 (note "c") ∷ [])
        pipeline).buffer.pending
    ≡ 3 ∷ []
unfolding program
overflow = refl

in_order_here : all_in_turn valid in_order pipeline ≡ true
unfolding program
in_order_here = refl

steps-Within_example :
    Within
      (contents (steps valid in_order pipeline))
      (contents pipeline ++ entered_by valid in_order pipeline)
steps-Within_example = steps-Within valid in_order pipeline in_order_here

entered_by-Numbered_example :
    Numbered "s" (pipeline.buffer.seq "s") (entered_by valid overtaking pipeline)
entered_by-Numbered_example = entered_by-Numbered valid "s" overtaking pipeline

empty-IsBounded : IsBounded pipeline.buffer
unfolding program
empty-IsBounded = record { counted = refl; within = inr (omega arith) }

steps-IsBounded_example : IsBounded (steps valid overtaking pipeline).buffer
steps-IsBounded_example = steps-IsBounded valid overtaking pipeline empty-IsBounded

abbrev rounds : List Round
rounds = record { oks = []; arrivals = (0, note "b") ∷ [] } ∷ []

closed_fine : (close valid 0 rounds [] [] pipeline).1 ≡ true
unfolding program
closed_fine = refl

close-pending_example : (close valid 0 rounds [] [] pipeline).0.buffer.pending ≡ []
close-pending_example = close-pending valid 0 rounds [] pipeline closed_fine

abbrev queued : Pipeline
unfolding program
queued = steps valid (appends 0 (note "a") ∷ []) pipeline

queued_alone : queued.waiting ≡ []
unfolding program
queued_alone = refl

flush-settled_example :
    (flush 0 [] [] queued).0.sinks ≡ map (settled_sink queued.buffer.pending) queued.sinks
flush-settled_example = flush-settled 0 [] [] queued queued_alone refl refl
