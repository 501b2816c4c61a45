-- ===== src/Storage/Journal/Recovery.antt =====
-- internal/engine/storage/journal.go: reading back what was written, behind a crash or not.
use marx_agent.Prelude.{
  ℕ, ◌-◌, ◌≡◌, refl, sym, ap, ◌∙◌, Bool, true, false, ◌&&◌, not, Option, none, some, List, [], ◌∷◌,
  ◌++◌, map, ◌==◌, ltb, length, inl, inr, arith, Bool-cases, length-append, append_assoc,
  append-nil, take-append,
}
use marx_agent.Storage.Buffer.{Record}
use marx_agent.Storage.Journal.{
  Codec, newline, is_end, is_blank, trim_line_end, encode_batch, add_line, Contents, read_line,
  no_contents, read_from, read_journal, truncate_partial,
}

-- A line without `\n` and `\r`.
abbrev pub is_clean : List ℕ → Bool
is_clean [] = true
is_clean (b ∷ bs) = not (is_end b) && is_clean bs

-- What the encoder writes for a record: one line, which reads back as the record's `kept` form.
pub record IsFaithful (c : Codec) (kept : Record → Record) : Type 0 where
  pub clean : (r : Record) (line : List ℕ) → c.marshal r ≡ some line → is_clean line ≡ true
  pub nonempty : (r : Record) (line : List ℕ) → c.marshal r ≡ some line → is_blank line ≡ false
  pub reads :
      (r : Record) (line : List ℕ) → c.marshal r ≡ some line → c.unmarshal line ≡ some (kept r)

trim_line_end-cons :
    (b : ℕ) (bs t : List ℕ)
    → is_end b ≡ false
    → trim_line_end bs ≡ t
    → trim_line_end (b ∷ bs) ≡ b ∷ t
unfolding trim_line_end
trim_line_end-cons b bs t h k = elim (Bool-cases (is_blank t)) [
  | inl blank ↦ simp (k, blank, h) refl
  | inr more ↦ simp (k, more) refl
]

clean_head : (b : ℕ) (bs : List ℕ) → is_clean (b ∷ bs) ≡ true → is_end b ≡ false
clean_head b bs h = ground (arith, h)

clean_tail : (b : ℕ) (bs : List ℕ) → is_clean (b ∷ bs) ≡ true → is_clean bs ≡ true
clean_tail b bs h = ground (arith, h)

clean_no_newline : (b : ℕ) (bs : List ℕ) → is_clean (b ∷ bs) ≡ true → (b == newline) ≡ false
clean_no_newline b bs h = ground (arith, h)

trim_line_end-clean : (line : List ℕ) → is_clean line ≡ true → trim_line_end line ≡ line
unfolding trim_line_end
trim_line_end-clean [] h = refl
trim_line_end-clean (b ∷ bs) h =
    trim_line_end-cons b bs bs (clean_head b bs h) (trim_line_end-clean bs (clean_tail b bs h))

trim_line_end-newline :
    (line : List ℕ) → is_clean line ≡ true → trim_line_end (line ++ newline ∷ []) ≡ line
unfolding trim_line_end
trim_line_end-newline [] h = refl
trim_line_end-newline (b ∷ bs) h =
    trim_line_end-cons b (bs ++ newline ∷ []) bs (clean_head b bs h)
      (trim_line_end-newline bs (clean_tail b bs h))

add_line-some :
    (a b : Option (List ℕ)) (bytes : List ℕ)
    → add_line a b ≡ some bytes
    → (line : List ℕ) × (rest : List ℕ) × (a ≡ some line)
      × (b ≡ some rest)
      × (bytes ≡ line ++ newline ∷ rest)
add_line-some (some line) (some rest) bytes h = (line, rest, refl, refl, cc)
add_line-some none b bytes h = ground (arith, h)
add_line-some (some line) none bytes h = ground (arith, h)

module _ (c : Codec) where
  read_from_line :
      (line more rest : List ℕ)
      → is_clean more ≡ true
      → read_from c line (more ++ newline ∷ rest)
        ≡ read_line c (trim_line_end ((line ++ more) ++ newline ∷ [])) (read_from c [] rest)
  unfolding read_from
  read_from_line line [] rest h =
      ap (λ l. read_line c (trim_line_end (l ++ newline ∷ [])) (read_from c [] rest))
        (sym (append-nil line))
  read_from_line line (b ∷ more) rest h =
      let other = clean_no_newline b more h in
      simp other (
        read_from_line (line ++ b ∷ []) more rest (clean_tail b more h)
        ∙ ap (λ l. read_line c (trim_line_end (l ++ newline ∷ [])) (read_from c [] rest))
            (append_assoc line (b ∷ []) more))

  read_from_rest :
      (line more : List ℕ)
      → is_clean more ≡ true
      → read_from c line more ≡ read_line c (trim_line_end (line ++ more)) no_contents
  unfolding read_from
  read_from_rest line [] h =
      ap (λ l. read_line c (trim_line_end l) no_contents) (sym (append-nil line))
  read_from_rest line (b ∷ more) h =
      let other = clean_no_newline b more h in
      simp other (
        read_from_rest (line ++ b ∷ []) more (clean_tail b more h)
        ∙ ap (λ l. read_line c (trim_line_end l) no_contents) (append_assoc line (b ∷ []) more))

  -- The records in front of what is read otherwise.
  abbrev pub behind : List Record → Contents → Contents
  behind rs rest = record rest { records = rs ++ rest.records }

  read_line-some :
      (line : List ℕ) (r : Record) (rest : Contents)
      → is_blank line ≡ false
      → c.unmarshal line ≡ some r
      → read_line c line rest ≡ record rest { records = r ∷ rest.records }
  read_line-some [] r rest h k = ground arith
  read_line-some (b ∷ bs) r rest h k = simp k refl

  -- What a crash leaves of a line: it has no line end and does not read as a record.
  abbrev pub Remnant : List ℕ → Type 0
  Remnant tail = (is_clean tail ≡ true) × (is_blank tail ≡ false) × (c.unmarshal tail ≡ none)

  abbrev partial_only : List ℕ → Contents
  partial_only tail = record { records = []; partial = tail }

  read_line-none :
      (line : List ℕ) (rest : Contents)
      → is_blank line ≡ false
      → c.unmarshal line ≡ none
      → read_line c line rest ≡ partial_only line
  read_line-none [] rest h k = ground arith
  read_line-none (b ∷ bs) rest h k = simp k refl

  read_from-Remnant : (tail : List ℕ) → Remnant tail → read_from c [] tail ≡ partial_only tail
  read_from-Remnant tail (clean, some_bytes, unread) =
      read_from_rest [] tail clean
      ∙ ap (λ l. read_line c l no_contents) (trim_line_end-clean tail clean)
      ∙ read_line-none tail no_contents some_bytes unread

  module _ (kept : Record → Record) (faithful : IsFaithful c kept) where
    read_encoded_line :
        (r : Record) (line rest : List ℕ)
        → c.marshal r ≡ some line
        → read_from c [] (line ++ newline ∷ rest) ≡ behind (kept r ∷ []) (read_from c [] rest)
    read_encoded_line r line rest h =
        let clean = faithful.clean r line h in
        read_from_line [] line rest clean
        ∙ ap (λ l. read_line c l (read_from c [] rest)) (trim_line_end-newline line clean)
        ∙ read_line-some line (kept r) (read_from c [] rest) (faithful.nonempty r line h)
            (faithful.reads r line h)

    read_from-encoded :
        (rs : List Record) (bytes tail : List ℕ)
        → encode_batch c rs ≡ some bytes
        → read_from c [] (bytes ++ tail) ≡ behind (map kept rs) (read_from c [] tail)
    unfolding encode_batch
    read_from-encoded [] bytes tail h = let same : bytes ≡ [] = cc in rw same refl
    read_from-encoded (r ∷ rs) bytes tail h =
        let (line, rest, one, more, same) =
          add_line-some (c.marshal r) (encode_batch c rs) bytes h in
        let split : bytes ++ tail ≡ line ++ newline ∷ (rest ++ tail) =
          ap (λ bs. bs ++ tail) same ∙ append_assoc line (newline ∷ rest) tail in
        ap (read_from c []) split
        ∙ read_encoded_line r line (rest ++ tail) one
        ∙ ap (behind (kept r ∷ [])) (read_from-encoded rs rest tail more)

    -- With an encoder that gives a record one nonempty line, which reads back as a form of the
    -- record: behind records that were encoded whole, ReadJournal gives those forms, and takes
    -- what a crash has left of a further line for partial, where that has no line end and does
    -- not read as a record; TruncatePartialJournal then leaves the bytes of the records.
    pub read_journal_recovers :
        (rs : List Record) (bytes tail : List ℕ)
        → encode_batch c rs ≡ some bytes
        → Remnant tail
        → (read_journal c (bytes ++ tail) ≡ record { records = map kept rs; partial = tail })
          × (truncate_partial (bytes ++ tail) tail ≡ some bytes)
    unfolding read_journal truncate_partial
    read_journal_recovers rs bytes tail h remnant =
        let enough : ltb (length (bytes ++ tail)) (length tail) ≡ false =
          ground (arith, length-append bytes tail) in
        let size : length (bytes ++ tail) - length tail ≡ length bytes =
          omega (arith, length-append bytes tail) in
        (
          read_from-encoded rs bytes tail h
              ∙ ap (behind (map kept rs)) (read_from-Remnant tail remnant)
              ∙ ap (λ all. record { records = all; partial = tail }) (append-nil (map kept rs)),
          simp (enough, size) (ap some (take-append bytes tail)),
        )

    -- A journal that was written whole reads back as its records, with nothing partial.
    pub read_journal-encode_batch :
        (rs : List Record) (bytes : List ℕ)
        → encode_batch c rs ≡ some bytes
        → read_journal c bytes ≡ record { records = map kept rs; partial = [] }
    unfolding read_journal read_from trim_line_end
    read_journal-encode_batch rs bytes h =
        ap (read_from c []) (sym (append-nil bytes))
        ∙ read_from-encoded rs bytes [] h
        ∙ ap (λ all. record { records = all; partial = [] }) (append-nil (map kept rs))
