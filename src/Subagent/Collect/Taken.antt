-- ===== src/Subagent/Collect/Taken.antt =====
-- internal/engine/subagent/state.go: what Take hands over and what it leaves.
use marx_agent.Prelude.{
  false, ℕ, zero, suc, ◌≡◌, ◌≢◌, refl, ◌∙◌, sym, ap, ◌⊎◌, String, Bool, Option, some, List, [], ◌∷◌,
  inl, inr, Bool-cases, take, drop, str_eq, str_eq_false, str_eq→eq, str_eq_iff, arith,
}
use marx_agent.Prelude.Int.{pos}
use marx_agent.Subagent.Mailbox.{Message, Mailbox, receive}
use marx_agent.Subagent.Broker.{Broker, find_mailbox}
use marx_agent.Subagent.Collect.{
  take_found, out_of_range, Took, took, refused, not_allowed, live, receive_up_to, put_mailbox,
  allowed, take_with_broker, take_messages,
}

receive_up_to-fields :
    (n : ℕ) (ms : List Message) (agent : String) (lost got entered away : ℕ) (shut : Bool)
    → receive_up_to n (record {
      agent_id = agent;
      waiting = ms;
      dropped = lost;
      delivered = got;
      entered = entered;
      turned_away = away;
      closed = shut;
    })
      ≡ (
        record {
          agent_id = agent;
          waiting = drop n ms;
          dropped = lost;
          delivered = got;
          entered = entered;
          turned_away = away;
          closed = shut;
        },
        take n ms,
      )
unfolding receive_up_to receive
receive_up_to-fields zero ms agent lost got entered away shut = refl
receive_up_to-fields (suc n) [] agent lost got entered away shut = refl
receive_up_to-fields (suc n) (m ∷ ms) agent lost got entered away shut =
    ap (λ r. (r.0, m ∷ r.1)) (receive_up_to-fields n ms agent lost got entered away shut)

pub receive_up_to_lem :
    (n : ℕ) (box : Mailbox)
    → receive_up_to n box ≡ (record box { waiting = drop n box.waiting }, take n box.waiting)
receive_up_to_lem n box =
    receive_up_to-fields n box.waiting box.agent_id box.dropped box.delivered box.entered
      box.turned_away box.closed

pub find_mailbox-put_mailbox :
    (agent : String) (box old : Mailbox) (boxes : List (String × Mailbox))
    → find_mailbox agent boxes ≡ some old
    → find_mailbox agent (put_mailbox agent box boxes) ≡ some box
unfolding find_mailbox put_mailbox
find_mailbox-put_mailbox agent box old [] h = grind arith
find_mailbox-put_mailbox agent box old ((key, other) ∷ rest) h =
    elim (Bool-cases (str_eq agent key)) [
      | inl same ↦ simp same refl
      | inr differs ↦ simp differs (find_mailbox-put_mailbox agent box old rest (simp differs at h))
    ]

pub find_mailbox-put_mailbox_other :
    (agent other : String) (box : Mailbox) (boxes : List (String × Mailbox))
    → other ≢ agent
    → find_mailbox other (put_mailbox agent box boxes) ≡ find_mailbox other boxes
unfolding find_mailbox put_mailbox
find_mailbox-put_mailbox_other agent other box [] h = refl
find_mailbox-put_mailbox_other agent other box ((key, old) ∷ rest) h =
    elim (Bool-cases (str_eq agent key)) [
      | inl same ↦
          let unlike = str_eq_false other key (λ e. h (e ∙ sym (str_eq→eq agent key same))) in
          simp (same, unlike) refl
      | inr differs ↦ elim (Bool-cases (str_eq other key)) [
        | inl there ↦ simp (differs, there) refl
        | inr beyond ↦
            simp (differs, beyond) (find_mailbox-put_mailbox_other agent other box rest h)
      ]
    ]

-- Of a mailbox that the broker holds.
module _ (fits : ℕ → Bool) (main by agent other : String) (n : ℕ) (b : Broker) (box : Mailbox) where
  abbrev pub Outcome : Option Broker × Took → Type 0
  Outcome out =
      ((by ≢ main) × (by ≢ agent) × (out ≡ (some b, refused not_allowed)))
      ⊎ (((by ≡ main) ⊎ (by ≡ agent))
          × (((fits (allowed n box) ≡ false) × (out ≡ (some b, out_of_range)))
              ⊎ ((b' : Broker) × (out ≡ (some b', took (take (allowed n box) box.waiting)))
                  × (find_mailbox agent b'.mailboxes
                      ≡ some (record box { waiting = drop (allowed n box) box.waiting }))
                  × (find_mailbox other b'.mailboxes ≡ find_mailbox other b.mailboxes))))

  take_with_broker-Outcome :
      (by ≡ main) ⊎ (by ≡ agent)
      → other ≢ agent
      → find_mailbox agent b.mailboxes ≡ some box
      → Outcome (take_with_broker fits agent (pos n) (some b))
  unfolding take_found
  take_with_broker-Outcome standing unlike there =
      let left : Mailbox = record box { waiting = drop (allowed n box) box.waiting } in
      elim (Bool-cases (fits (allowed n box))) [
        | inl room ↦ inr (
          standing,
          inr (
            record b { mailboxes = put_mailbox agent left b.mailboxes },
            rw (there, receive_up_to_lem (allowed n box) box, room) refl,
            find_mailbox-put_mailbox agent left box b.mailboxes there,
            find_mailbox-put_mailbox_other agent other left b.mailboxes unlike,
          ),
        )
        | inr large ↦ inr (standing, inl (large, rw (there, large) refl))
      ]

  -- Where nobody else acts on the broker meanwhile, Take with a live context and a limit that is
  -- not negative, on an agent whose mailbox the broker holds: a caller that is neither the main
  -- core nor the agent is refused and changes nothing. Any other caller gets the oldest waiting
  -- messages in their order, as many as the limit allows, or all for the limit 0; the others stay
  -- in the mailbox in their order, and every other agent's mailbox stays as it is. It panics, and
  -- takes nothing, only where the runtime makes no slice with room for so many messages.
  pub take_messages-Outcome :
      other ≢ agent
      → find_mailbox agent b.mailboxes ≡ some box
      → Outcome (take_messages fits live main by agent (pos n) (some b))
  unfolding take_messages
  take_messages-Outcome unlike there = elim (Bool-cases (str_eq by main)) [
    | inl first ↦ simp first (take_with_broker-Outcome (inl (str_eq→eq by main first)) unlike there)
    | inr second ↦ elim (Bool-cases (str_eq by agent)) [
      | inl own ↦
          simp (second, own) (take_with_broker-Outcome (inr (str_eq→eq by agent own)) unlike there)
      | inr neither ↦
          simp (second, neither)
            (inl (grind (arith, str_eq_iff by main), grind (arith, str_eq_iff by agent), refl))
    ]
  ]
