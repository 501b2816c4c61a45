-- ===== src/Storage/Journal.antt =====
-- internal/engine/storage/journal.go: the lines of a journal file. The file's content is the list
-- of its bytes; json.Marshal and json.Unmarshal are a parameter.
pub mod Recovery
use marx_agent.Prelude.{
  ℕ, ◌+◌, ◌-◌, Bool, true, false, ◌&&◌, ◌||◌, Option, none, some, List, [], ◌∷◌, ◌++◌, ◌==◌, ltb,
  length, take, if◌then◌else◌,
}
use marx_agent.Storage.Buffer.{Record}

pub record Codec : Type 0 where
  pub marshal : Record → Option (List ℕ)
  pub unmarshal : List ℕ → Option Record

abbrev pub newline : ℕ
newline = 10

-- `\n` or `\r`.
abbrev pub is_end : ℕ → Bool
is_end b = b == newline || b == 13

abbrev pub is_blank : List ℕ → Bool
is_blank [] = true
is_blank (b ∷ bs) = false

unfoldable pub trim_line_end : List ℕ → List ℕ
trim_line_end [] = []
trim_line_end (b ∷ bs) =
    let rest = trim_line_end bs in if is_blank rest && is_end b then [] else b ∷ rest

-- The loop of Write over the batch.
abbrev pub add_line : Option (List ℕ) → Option (List ℕ) → Option (List ℕ)
add_line (some line) (some rest) = some (line ++ newline ∷ rest)
add_line _ _ = none

unfoldable pub encode_batch : Codec → List Record → Option (List ℕ)
encode_batch c [] = some []
encode_batch c (r ∷ rs) = add_line (c.marshal r) (encode_batch c rs)

-- JournalSink. Once a write has failed the bufio.Writer accepts no more.
pub record JournalSink : Type 0 where
  pub bytes : List ℕ
  pub closed : Bool
  pub broken : Bool

pub data WriteError : Type 0 where
  encode_failed : WriteError
  journal_closed : WriteError
  append_failed : WriteError

-- What the file takes of the bytes: all of them, or some before it fails.
abbrev pub append_bytes : Option ℕ → List ℕ → JournalSink → JournalSink × Option WriteError
append_bytes none data_bytes s = (record s { bytes = s.bytes ++ data_bytes }, none)
append_bytes (some n) data_bytes s =
    (record s { bytes = s.bytes ++ take n data_bytes; broken = true }, some append_failed)

abbrev pub write_bytes : Option ℕ → Option (List ℕ) → JournalSink → JournalSink × Option WriteError
write_bytes fails none s = (s, some encode_failed)
write_bytes fails (some data_bytes) s =
    if s.closed
    then (s, some journal_closed)
    else if s.broken
    then (s, some append_failed)
    else append_bytes fails data_bytes s

abbrev pub write_encoded :
    Codec → Option ℕ → List Record → JournalSink → JournalSink × Option WriteError
write_encoded c fails [] s = (s, none)
write_encoded c fails (r ∷ rs) s = write_bytes fails (encode_batch c (r ∷ rs)) s

-- Write; `fails` tells how many bytes reach the file where the operating system refuses.
unfoldable pub write :
    Codec → Option ℕ → List Record → JournalSink → JournalSink × Option WriteError
write c fails batch s = write_encoded c fails batch s

pub record Contents : Type 0 where
  pub records : List Record
  pub partial : List ℕ

abbrev pub no_contents : Contents
no_contents = record { records = []; partial = [] }

-- What the loop of ReadJournal makes of a line without its end, before what the others give.
abbrev pub with_record : List ℕ → Option Record → Contents → Contents
with_record line none rest = record { records = []; partial = line }
with_record line (some r) rest = record rest { records = r ∷ rest.records }

abbrev pub read_line : Codec → List ℕ → Contents → Contents
read_line c [] rest = rest
read_line c (b ∷ bs) rest = with_record (b ∷ bs) (c.unmarshal (b ∷ bs)) rest

-- ReadJournal behind the bytes `line` of the line that it reads.
unfoldable pub read_from : Codec → List ℕ → List ℕ → Contents
read_from c line [] = read_line c (trim_line_end line) no_contents
read_from c line (b ∷ bs) =
    let rest = read_from c [] bs in
    let more = read_from c (line ++ b ∷ []) bs in
    if b == newline then read_line c (trim_line_end (line ++ b ∷ [])) rest else more

unfoldable pub read_journal : Codec → List ℕ → Contents
read_journal c bytes = read_from c [] bytes

-- TruncatePartialJournal; none is its error.
unfoldable pub truncate_partial : List ℕ → List ℕ → Option (List ℕ)
truncate_partial bytes partial =
    if ltb (length bytes) (length partial)
    then none
    else some (take (length bytes - length partial) bytes)
