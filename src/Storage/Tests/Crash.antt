-- ===== src/Storage/Tests/Crash.antt =====
-- internal/engine/storage/journal.go: journals of a codec that writes a record as three bytes.
use marx_agent.Prelude.{
  ℕ, ◌+◌, ◌-◌, ◌≡◌, refl, true, false, ◌&&◌, Option, none, some, List, [], ◌∷◌, ◌++◌, ◌==◌, map,
  arith, if◌then◌else◌,
}
use mathlib.Core.Path.{subst}
use marx_agent.Storage.Buffer.{Record}
use marx_agent.Storage.Journal.{
  Codec, write, encode_batch, read_journal, read_from, trim_line_end, truncate_partial, is_blank,
}
use marx_agent.Storage.Journal.Recovery.{IsFaithful, is_clean, Remnant, read_journal_recovers}

abbrev numbered : ℕ → Record
numbered n = record { stream = "s"; seq = n; type = "event"; raw_data = "null"; ts = 1 }

abbrev line_of : Record → List ℕ
line_of r = 123 ∷ (r.seq + 100) ∷ 125 ∷ []

abbrev parse : List ℕ → Option Record
parse (a ∷ n ∷ b ∷ []) = if a == 123 && b == 125 then some (numbered (n - 100)) else none
parse _ = none

abbrev tiny : Codec
tiny = record { marshal = λ r. some (line_of r); unmarshal = parse }

abbrev kept : Record → Record
kept r = numbered r.seq

line_of-is_clean : (r : Record) → is_clean (line_of r) ≡ true
line_of-is_clean r = ground arith

parse-line_of : (r : Record) → parse (line_of r) ≡ some (kept r)
parse-line_of r = let back : r.seq + 100 - 100 ≡ r.seq = omega arith in simp back refl

tiny-IsFaithful : IsFaithful tiny kept
tiny-IsFaithful = record {
  clean = λ r line h.
      let same : line_of r ≡ line = cc in subst (λ l. is_clean l ≡ true) same (line_of-is_clean r);
  nonempty =
      λ r line h. let same : line_of r ≡ line = cc in subst (λ l. is_blank l ≡ false) same refl;
  reads = λ r line h.
      let same : line_of r ≡ line = cc in
      subst (λ l. parse l ≡ some (kept r)) same (parse-line_of r);
}

-- Names what the runs below compute with.
unfoldable program : Unit {0}
unfolding write encode_batch read_journal read_from trim_line_end truncate_partial
program = tt

abbrev two : List Record
two = numbered 1 ∷ numbered 2 ∷ []

abbrev two_lines : List ℕ
two_lines = line_of (numbered 1) ++ 10 ∷ line_of (numbered 2) ++ 10 ∷ []

two_written : encode_batch tiny two ≡ some two_lines
unfolding program
two_written = refl

remnant : Remnant tiny (123 ∷ 103 ∷ [])
remnant = (refl, refl, refl)

-- A crash that leaves a record without its line end: it is read, nothing is partial, and what the
-- next write appends is lost with it.
read_whole :
    read_journal tiny (line_of (numbered 1)) ≡ record { records = numbered 1 ∷ []; partial = [] }
unfolding program
read_whole = refl

glued : (read_journal tiny (line_of (numbered 1) ++ two_lines)).records ≡ []
unfolding program
glued = refl

read_journal_recovers_example :
    (read_journal tiny (two_lines ++ 123 ∷ 103 ∷ [])
      ≡ record { records = map kept two; partial = 123 ∷ 103 ∷ [] })
    × (truncate_partial (two_lines ++ 123 ∷ 103 ∷ []) (123 ∷ 103 ∷ []) ≡ some two_lines)
read_journal_recovers_example =
    read_journal_recovers tiny kept tiny-IsFaithful two two_lines (123 ∷ 103 ∷ []) two_written
      remnant
