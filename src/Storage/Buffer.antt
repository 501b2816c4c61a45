-- ===== src/Storage/Buffer.antt =====
-- internal/engine/storage/writebuffer.go: the queue of a WriteBuffer under its lock `mu`.
-- The numbers of records and bytes in memory are not bounded; a sequence number is an int64, kept
-- as its 64 bits.
pub mod Kept
pub mod Bounds
use marx_agent.Prelude.{
  ℕ, zero, suc, ◌+◌, ◌-◌, ◌*◌, ◌/◌, ◌%◌, ◌^◌, Bool, true, false, ◌&&◌, ◌||◌, not, String, List, [],
  ◌∷◌, ◌++◌, ◌==◌, ltb, leb, length, is_empty, str_eq, byte_length, if◌then◌else◌,
}

abbrev pub default_watermark_records : ℕ
default_watermark_records = 64

abbrev pub default_watermark_bytes : ℕ
default_watermark_bytes = 256 * 2 ^ 10

abbrev pub default_flush_period : ℕ
default_flush_period = 500000000

abbrev pub default_queue_bytes : ℕ
default_queue_bytes = 64 * 2 ^ 20

-- A number that is not positive is 0; the period is in nanoseconds.
pub record Config : Type 0 where
  pub watermark_records : ℕ
  pub watermark_bytes : ℕ
  pub flush_period : ℕ
  pub queue_bytes : ℕ

abbrev default_to : ℕ → ℕ → ℕ
default_to d n = if n == 0 then d else n

unfoldable pub with_defaults : Config → Config
with_defaults c = record {
  watermark_records = default_to default_watermark_records c.watermark_records;
  watermark_bytes = default_to default_watermark_bytes c.watermark_bytes;
  flush_period = default_to default_flush_period c.flush_period;
  queue_bytes = default_to default_queue_bytes c.queue_bytes;
}

-- `raw_data` is the field Data; a time of 0 is the zero time.
pub record Record : Type 0 where
  pub stream : String
  pub seq : ℕ
  pub type : String
  pub raw_data : String
  pub ts : ℕ

pub record Buffer : Type 0 where
  pub config : Config
  pub pending : List Record
  pub bytes : ℕ
  pub seq : String → ℕ
  pub closed : Bool
  pub dropped : ℕ
  pub signal : Bool

pub data AppendError : Type 0 where
  empty_stream : AppendError
  empty_type : AppendError
  invalid_data : AppendError
  buffer_closed : AppendError
  queue_overflow : AppendError

unfoldable pub new_buffer : Config → Buffer
new_buffer c = record {
  config = with_defaults c;
  pending = [];
  bytes = 0;
  seq = λ stream. 0;
  closed = false;
  dropped = 0;
  signal = false;
}

unfoldable pub record_bytes : Record → ℕ
record_bytes r = byte_length r.raw_data + byte_length r.stream + byte_length r.type + 64

-- What the loop of dropOverflowLocked changes.
pub record Queue : Type 0 where
  pub pending : List Record
  pub bytes : ℕ
  pub dropped : ℕ

abbrev drop_step : ℕ → ℕ → Queue → List Record → Queue → Queue
drop_step limit bytes rest [] next = rest
drop_step limit bytes rest (r ∷ rs) next = if ltb limit bytes then next else rest

-- The loop of dropOverflowLocked, from the queue `rs` on.
unfoldable pub drop_overflow : ℕ → List Record → ℕ → ℕ → Queue
drop_overflow limit [] bytes dropped = record { pending = []; bytes = bytes; dropped = dropped }
drop_overflow limit (r ∷ rs) bytes dropped =
    let next = drop_overflow limit rs (bytes - record_bytes r) (dropped + 1) in
    drop_step limit bytes (record { pending = r ∷ rs; bytes = bytes; dropped = dropped }) rs next

abbrev pub with_queue : Queue → Buffer → Buffer
with_queue q b = record b { pending = q.pending; bytes = q.bytes; dropped = q.dropped }

-- `b.seq[stream]++`.
unfoldable pub count_stream : String → (String → ℕ) → String → ℕ
count_stream stream seq s = if str_eq s stream then (seq s + 1) % 2 ^ 64 else seq s

-- The record with its number, in the queue.
unfoldable pub enqueue : Record → Buffer → Record × Buffer
enqueue r b =
    let seq = count_stream r.stream b.seq in
    let numbered : Record = record r { seq = seq r.stream } in
    (
      numbered,
      record b {
        seq = seq;
        pending = b.pending ++ numbered ∷ [];
        bytes = b.bytes + record_bytes numbered;
      },
    )

abbrev pub is_over : Buffer → Bool
is_over b = ltb b.config.queue_bytes b.bytes

abbrev pub is_full : Buffer → Bool
is_full b =
    leb b.config.watermark_records (length b.pending) || leb b.config.watermark_bytes b.bytes

unfoldable pub wake : Buffer → Buffer
wake b = record b { signal = true }

unfoldable pub settle_queue : Buffer → Buffer
settle_queue b =
    if is_over b
    then with_queue (drop_overflow (b.config.queue_bytes / 2) b.pending b.bytes b.dropped) b
    else b

abbrev pub wake_if : Bool → Buffer → Buffer
wake_if told b = if told then wake b else b

-- What Append did: the record in the queue, where it was accepted, and the error.
pub data Appended : Type 0 where
  accepted : Record → Appended
  overflowed : Record → Appended
  refused : AppendError → Appended

-- Append behind its lock, on a buffer that is open.
unfoldable pub append_open : Record → Buffer → Appended × Buffer
append_open r b =
    let (numbered, queued) = enqueue r b in
    let settled : Buffer = settle_queue queued in
    (
      if is_over queued then overflowed numbered else accepted numbered,
      wake_if (is_full settled || is_over queued) settled,
    )

-- `now` is the clock.
abbrev pub filled : ℕ → Record → Record
filled now r = record r {
  raw_data = if is_empty r.raw_data then "null" else r.raw_data;
  ts = if r.ts == 0 then now else r.ts;
}

-- Append; `valid` is json.Valid.
unfoldable pub append : (String → Bool) → ℕ → Record → Buffer → Appended × Buffer
append valid now r b =
    let full : Record = filled now r in
    if is_empty r.stream
    then (refused empty_stream, b)
    else if is_empty r.type
    then (refused empty_type, b)
    else if not (valid full.raw_data)
    then (refused invalid_data, b)
    else if b.closed
    then (refused buffer_closed, b)
    else append_open full b

unfoldable pub mark_closed : Buffer → Buffer
mark_closed b = record b { closed = true }
