-- ===== src/Context/Ring/History.antt =====
-- internal/engine/context/ring.go: what the ring holds of all that was appended.
use mathlib.Core.Path.{subst}
use marx_agent.Prelude.{
  ℕ, ◌+◌, ◌-◌, ◌≡◌, sym, ap, ◌∙◌, List, [], ◌∷◌, ◌++◌, leb, length, drop, inl, inr, arith,
  Bool-cases, append_assoc, append-nil, length-append, length-drop, drop-append, drop-drop_add,
}
use marx_agent.Core.Message.{Message}
use marx_agent.Context.Ring.{Ring, append, append_each}

-- The ring holds the newest of the messages of a history, as many as its capacity allows, and has
-- counted the others.
pub record Holds (r : Ring) (history : List Message) : Type 0 where
  pub newest : r.messages ≡ drop (length history - r.capacity) history
  pub counted : r.dropped ≡ length history - r.capacity

abbrev pub all_of : List (List Message) → List Message
all_of [] = []
all_of (xs ∷ xss) = xs ++ all_of xss

append-capacity : (more : List Message) (r : Ring) → (append more r).0.capacity ≡ r.capacity
unfolding append
append-capacity more r = ground (arith)

append-Holds :
    (more : List Message) (r : Ring) (h : List Message)
    → Holds r h
    → Holds (append more r).0 (h ++ more)
unfolding append
append-Holds more r h k =
    let d = length h - r.capacity in
    let total : length (h ++ more) ≡ length h + length more = length-append h more in
    let all : r.messages ++ more ≡ drop d (h ++ more) =
      ap (λ ms. ms ++ more) k.newest ∙ sym (drop-append d h more (omega arith)) in
    let size : length (r.messages ++ more) ≡ length h + length more - d =
      ap length all ∙ length-drop d (h ++ more) ∙ ap (λ n. n - d) total in
    elim (Bool-cases (leb (length (r.messages ++ more)) r.capacity)) [
      | inl fits ↦
          let same : d ≡ length (h ++ more) - r.capacity = ground (arith, size, total, fits) in
          simp fits (record {
            newest = all ∙ ap (λ n. drop n (h ++ more)) same;
            counted = k.counted ∙ same;
          })
      | inr full ↦
          let lost : ℕ = length (r.messages ++ more) - r.capacity in
          let same : d + lost ≡ length (h ++ more) - r.capacity =
            ground (arith, size, total, full) in
          simp full (record {
            newest =
                ap (drop lost) all
                ∙ drop-drop_add lost d (h ++ more)
                ∙ ap (λ n. drop n (h ++ more)) same;
            counted = ap (λ n. n + lost) k.counted ∙ same;
          })
    ]

-- After any sequence of appends to a ring that does so, the ring holds the newest messages of all
-- that was appended, in their order and as many as its capacity allows, and has counted exactly
-- the others.
pub append_each-Holds :
    (batches : List (List Message)) (r : Ring) (h : List Message)
    → Holds r h
    → Holds (append_each batches r) (h ++ all_of batches)
unfolding append_each
append_each-Holds [] r h k = rw append-nil k
append_each-Holds (more ∷ rest) r h k =
    subst (λ ms. Holds (append_each rest (append more r).0) ms) (append_assoc h more (all_of rest))
      (append_each-Holds rest (append more r).0 (h ++ more) (append-Holds more r h k))
