-- ===== src/Storage/Pipeline/Order.antt =====
-- internal/engine/storage/writebuffer.go: the records between Append and the journal.
use mathlib.Core.Path.{subst}
use marx_agent.Prelude.{
  Within, Within-nil, Within-refl, Within-trans, Within-append, ℕ, ◌≡◌, refl, sym, ap, ◌∙◌, Bool,
  true, false, ◌&&◌, String, List, [], ◌∷◌, ◌++◌, ◌==◌, inl, inr, ◌⊎◌, arith, append_assoc,
  append-nil,
}
use marx_agent.Storage.Buffer.{Record, append, mark_closed}
use marx_agent.Storage.Buffer.Kept.{entered, append-Within}
use marx_agent.Storage.Pipeline.{
  Sink, Pipeline, Action, appends, takes, writes, syncs, closes, step, steps, take_batch, taken,
  write_found, write_batch, write_sinks, sync_now, sync_sinks, pick,
}

-- What the readable journal holds, which is the first sink.
abbrev pub journal_of : List Sink → List Record
journal_of [] = []
journal_of (s ∷ ss) = s.journal

abbrev pub batches : List (ℕ × List Record) → List Record
batches [] = []
batches ((d, batch) ∷ rest) = batch ++ batches rest

-- Journal, batches of the drains, queue.
abbrev pub contents : Pipeline → List Record
contents p = journal_of p.sinks ++ batches p.waiting ++ p.buffer.pending

-- The record that the action brings into the queue.
abbrev pub entering : (String → Bool) → Action → Pipeline → List Record
entering valid (appends now r) p = entered (append valid now r p.buffer).0
entering valid _ p = []

unfoldable pub entered_by : (String → Bool) → List Action → Pipeline → List Record
entered_by valid [] p = []
entered_by valid (a ∷ rest) p = entering valid a p ++ entered_by valid rest (step valid a p)

abbrev is_first : ℕ → List (ℕ × List Record) → Bool
is_first d [] = true
is_first d ((e, batch) ∷ rest) = d == e

-- A drain that writes is the one that took its batch before the others that have not written.
abbrev pub in_turn : Action → Pipeline → Bool
in_turn (writes d oks) p = is_first d p.waiting
in_turn _ p = true

unfoldable pub all_in_turn : (String → Bool) → List Action → Pipeline → Bool
all_in_turn valid [] p = true
all_in_turn valid (a ∷ rest) p = in_turn a p && all_in_turn valid rest (step valid a p)

-- A write appends its batch to the journal or leaves it.
write_sinks-cases :
    (oks : List Bool) (batch : List Record) (ss : List Sink)
    → (journal_of (write_sinks oks batch ss).0 ≡ journal_of ss)
      ⊎ (journal_of (write_sinks oks batch ss).0 ≡ journal_of ss ++ batch)
unfolding write_sinks
write_sinks-cases oks batch [] = inl refl
write_sinks-cases [] batch (s ∷ ss) = inr refl
write_sinks-cases (true ∷ oks) batch (s ∷ ss) = inr refl
write_sinks-cases (false ∷ oks) batch (s ∷ ss) = inl refl

sync_sinks-journal :
    (oks : List Bool) (ss : List Sink) → journal_of (sync_sinks oks ss).0 ≡ journal_of ss
unfolding sync_sinks
sync_sinks-journal oks [] = refl
sync_sinks-journal [] (s ∷ ss) = refl
sync_sinks-journal (true ∷ oks) (s ∷ ss) = refl
sync_sinks-journal (false ∷ oks) (s ∷ ss) = refl

batches-append :
    (w : List (ℕ × List Record)) (d : ℕ) (batch : List Record)
    → batches (w ++ (d, batch) ∷ []) ≡ batches w ++ batch
batches-append [] d batch = append-nil batch
batches-append ((e, b) ∷ w) d batch =
    ap (λ rs. b ++ rs) (batches-append w d batch) ∙ sym (append_assoc b (batches w) batch)

taken-contents :
    (d : ℕ) (q : List Record) (p : Pipeline)
    → p.buffer.pending ≡ q
    → contents (taken d q p) ≡ contents p
taken-contents d [] p h = refl
taken-contents d (r ∷ rs) p h =
    simp (h, batches-append p.waiting d (r ∷ rs), append-nil)
      (sym (append_assoc (journal_of p.sinks) (batches p.waiting) (r ∷ rs)))

write_found-Within :
    (d : ℕ) (oks : List Bool) (w : List (ℕ × List Record)) (p : Pipeline)
    → p.waiting ≡ w
    → is_first d w ≡ true
    → Within (contents (write_found oks (pick d w) p).0) (contents p)
unfolding pick
write_found-Within d oks [] p h first = Within-refl (contents p)
write_found-Within d oks ((e, batch) ∷ rest) p h first =
    let journal = journal_of p.sinks in
    let skipped : Within (batches rest) (batch ++ batches rest) =
      Within-append (Within-nil batch) (Within-refl (batches rest)) in
    elim (write_sinks-cases oks batch p.sinks) [
      | inl same ↦
          simp (first, same, h)
            (Within-append (Within-append (Within-refl journal) skipped)
              (Within-refl p.buffer.pending))
      | inr more ↦
          simp (first, more, h, append_assoc)
            (Within-refl (journal ++ (batch ++ (batches rest ++ p.buffer.pending))))
    ]

step-Within :
    (valid : String → Bool) (a : Action) (p : Pipeline)
    → in_turn a p ≡ true
    → Within (contents (step valid a p)) (contents p ++ entering valid a p)
unfolding step take_batch write_batch sync_now mark_closed
step-Within valid (appends now r) p turn =
    let before = journal_of p.sinks ++ batches p.waiting in
    let new = entered (append valid now r p.buffer).0 in
    let queue = (append valid now r p.buffer).1.pending in
    subst (Within (before ++ queue)) (sym (append_assoc before p.buffer.pending new))
      (Within-append (Within-refl before) (append-Within valid now r p.buffer))
step-Within valid (takes d) p turn =
    simp (taken-contents d p.buffer.pending p refl, append-nil) (Within-refl (contents p))
step-Within valid (writes d oks) p turn =
    simp append-nil (write_found-Within d oks p.waiting p refl turn)
step-Within valid (syncs oks) p turn =
    simp (sync_sinks-journal oks p.sinks, append-nil) (Within-refl (contents p))
step-Within valid closes p turn = simp append-nil (Within-refl (contents p))

-- As long as the drains write in the order in which they took their batches, the journal followed
-- by those batches and the queue is what it was, followed by the records that have entered the
-- queue since, less some of either: none is reordered, doubled or made up.
pub steps-Within :
    (valid : String → Bool) (actions : List Action) (p : Pipeline)
    → all_in_turn valid actions p ≡ true
    → Within (contents (steps valid actions p)) (contents p ++ entered_by valid actions p)
unfolding steps all_in_turn entered_by
steps-Within valid [] p turn = simp append-nil (Within-refl (contents p))
steps-Within valid (a ∷ rest) p turn =
    let now : in_turn a p ≡ true = ground (arith, turn) in
    let later : all_in_turn valid rest (step valid a p) ≡ true = ground (arith, turn) in
    let one = step-Within valid a p now in
    let new = entered_by valid rest (step valid a p) in
    let last = contents (steps valid rest (step valid a p)) in
    subst (Within last) (append_assoc (contents p) (entering valid a p) new) (
      Within-trans (steps-Within valid rest (step valid a p) later)
        (Within-append one (Within-refl new)))
