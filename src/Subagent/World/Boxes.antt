-- ===== src/Subagent/World/Boxes.antt =====
-- internal/engine/subagent/broker.go: what holds of every mailbox of a broker.
use marx_agent.Prelude.{
  String, List, [], ◌∷◌, str_eq, is_blank, inl, inr, Bool-cases, All, All-append, All-imp,
}
use marx_agent.Subagent.Mailbox.{
  Message, Mailbox, new_mailbox, deliver, receive, count_delivered, count_dropped,
}
use marx_agent.Subagent.Broker.{
  Broker, register, without, deliver_all, deliver_to, route, route_broadcast, route_main,
  find_mailbox, has_mailbox,
}
use marx_agent.Subagent.World.{change_box, shut}

-- A predicate on mailboxes that each of their operations keeps, where a message is delivered that
-- has a property.
pub record Kept (P : Mailbox → Type 0) (Q : Message → Type 0) : Type 0 where
  pub fresh : (agent : String) → P (new_mailbox agent)
  pub taken : (m : Message) (box : Mailbox) → Q m → P box → P (deliver m box).0
  pub given : (box : Mailbox) → P box → P (receive box).0
  pub counted : (box : Mailbox) → P box → P (count_delivered box)
  pub passed : (box : Mailbox) → P box → P (count_dropped box)

abbrev pub Every : (Mailbox → Type 0) → List (String × Mailbox) → Type 0
Every P boxes = All (λ entry. P entry.1) boxes

-- A predicate that becomes another where a message is delivered, and where none is.
module _ (P R : Mailbox → Type 0) (m : Message)
    (taken : (box : Mailbox) → P box → R (deliver m box).0)
    (untouched : (box : Mailbox) → P box → R box) where
  pub Every-imp : (boxes : List (String × Mailbox)) → Every P boxes → Every R boxes
  Every-imp boxes h = All-imp (λ e. P e.1) (λ e. R e.1) boxes (λ e. untouched e.1) h

  deliver_all-Every :
      (boxes : List (String × Mailbox)) → Every P boxes → Every R (deliver_all m boxes).0
  unfolding deliver_all
  deliver_all-Every [] h = h
  deliver_all-Every ((key, box) ∷ rest) h = (taken box h.0, deliver_all-Every rest h.1)

  deliver_to-Every :
      (agent : String) (boxes : List (String × Mailbox))
      → Every P boxes
      → Every R (deliver_to agent m boxes).0
  unfolding deliver_to
  deliver_to-Every agent [] h = h
  deliver_to-Every agent ((key, box) ∷ rest) h = elim (Bool-cases (str_eq agent key)) [
    | inl same ↦ simp same (taken box h.0, Every-imp rest h.1)
    | inr other ↦ simp other (untouched box h.0, deliver_to-Every agent rest h.1)
  ]

  pub route-turns : (b : Broker) → Every P b.mailboxes → Every R (route m b).0.mailboxes
  unfolding route
  route-turns b h = elim (Bool-cases (str_eq m.to_agent_id route_broadcast)) [
    | inl all ↦ simp all (deliver_all-Every b.mailboxes h)
    | inr one ↦ elim (Bool-cases (str_eq m.to_agent_id route_main)) [
      | inl to_main ↦ simp (one, to_main) (deliver_to-Every b.main_id b.mailboxes h)
      | inr other ↦ simp (one, other) (deliver_to-Every m.to_agent_id b.mailboxes h)
    ]
  ]

module _ (P : Mailbox → Type 0) (Q : Message → Type 0) (kept : Kept P Q) where
  pub route-Every :
      (m : Message) (b : Broker) → Q m → Every P b.mailboxes → Every P (route m b).0.mailboxes
  route-Every m b q h = route-turns P P m (λ box p. kept.taken m box q p) (λ box p. p) b h

module _ (P : Mailbox → Type 0) where
  pub register-Every :
      ((agent : String) → P (new_mailbox agent))
      → (agent : String) (b : Broker) → Every P b.mailboxes
      → Every P (register agent b).0.mailboxes
  unfolding register
  register-Every fresh agent b h = elim (Bool-cases (is_blank agent)) [
    | inl blank ↦ simp blank h
    | inr named ↦ elim (Bool-cases b.closed) [
      | inl closed ↦ simp (named, closed) h
      | inr open_now ↦ elim (Bool-cases (has_mailbox (find_mailbox agent b.mailboxes))) [
        | inl there ↦ simp (named, open_now, there) h
        | inr new ↦
            simp (named, open_now, new)
              (All-append (λ entry. P entry.1) b.mailboxes ((agent, new_mailbox agent) ∷ []) h
                (fresh agent, tt))
      ]
    ]
  ]

  pub without-Every :
      (agent : String) (boxes : List (String × Mailbox))
      → Every P boxes
      → Every P (without agent boxes)
  unfolding without
  without-Every agent [] h = h
  without-Every agent ((key, box) ∷ rest) h = elim (Bool-cases (str_eq agent key)) [
    | inl same ↦ simp same (without-Every agent rest h.1)
    | inr other ↦ simp other (h.0, without-Every agent rest h.1)
  ]

  pub change_box-Every :
      (f : Mailbox → Mailbox) (agent : String) (boxes : List (String × Mailbox))
      → ((box : Mailbox) → P box → P (f box))
      → Every P boxes
      → Every P (change_box f agent boxes)
  unfolding change_box
  change_box-Every f agent [] g h = h
  change_box-Every f agent ((key, box) ∷ rest) g h = elim (Bool-cases (str_eq agent key)) [
    | inl same ↦ simp same (g box h.0, h.1)
    | inr other ↦ simp other (h.0, change_box-Every f agent rest g h.1)
  ]

  pub shut-Every : (b : Broker) → Every P b.mailboxes → Every P (shut b).mailboxes
  unfolding shut
  shut-Every b h = elim (Bool-cases b.closed) [
    | inl closed ↦ simp closed h
    | inr open_now ↦ simp open_now tt
  ]
