-- ===== src/Subagent/Registry/Runs.antt =====
-- internal/engine/subagent/registry.go: whatever is asked of a registry, one after the other.
use marx_agent.Prelude.{
  ℕ, ◌≡◌, refl, sym, ◌⊎◌, ◌+◌, String, true, false, Option, none, some, List, [], ◌∷◌, inl, inr,
  Bool-cases, All, length, str_eq, str_eq→eq, is_empty, trim_space, arith,
}
use marx_agent.Subagent.Collect.{Context, nil, cancelled, live}
use marx_agent.Subagent.Broker.{Broker, RegisterError}
use marx_agent.Subagent.Table.{has_key, put, remove}
use marx_agent.Subagent.Registry.{
  starting, Spec, Agent, Handle, Registry, new_agent, is_at_limit, open_mailbox, drop_mailbox,
  first_id, spawn_handled, spawn_opened, spawn_checked, spawn_with, register_opened,
  register_checked, set_summary, note_message, shutdown, completed, spawn, register, Action, spawns,
  registers, deletes, sets_state, sets_summary, notes_message, finishes, shuts_down, act, act_each,
}
use marx_agent.Subagent.Registry.Sane.{
  IsSane, put-IsSane, outside-IsSane, remove-IsSane, update-IsSane, set_state-IsSane, finish-IsSane,
  delete_agent-IsSane,
}

-- A handle has the identifier that the agent was given, or none.
abbrev pub Honest : Option (Spec → Option Handle) → Type 0
Honest none = Unit
Honest (some make) =
    (s : Spec) (h : Handle) → make s ≡ some h → (h.agent_id ≡ "") ⊎ (h.agent_id ≡ s.agent_id)

first_id_lem :
    (given wanted : String) → (given ≡ "") ⊎ (given ≡ wanted) → first_id given wanted ≡ wanted
first_id_lem given wanted (inl e) = rw e refl
first_id_lem given wanted (inr e) = elim (Bool-cases (is_empty given)) [
  | inl empty ↦ simp empty refl
  | inr named ↦ simp named e
]

-- A specification whose place in the table is free, below the main core.
module _ (now : ℕ) (s : Spec) (r : Registry) (below : s.parent_id ≡ r.main_id) where
  spawn_handled-IsSane :
      (made : Option Handle)
      → ((h : Handle) → made ≡ some h → (h.agent_id ≡ "") ⊎ (h.agent_id ≡ s.agent_id))
      → IsSane r
      → is_at_limit r.max_agents (length r.agents) ≡ false
      → has_key s.agent_id r.agents ≡ false
      → (b : Option Broker) → IsSane (spawn_handled now s (record r { broker = b }) made).0
  unfolding spawn_handled
  spawn_handled-IsSane none honest sane room free b = outside-IsSane r _ r.handles sane
  spawn_handled-IsSane (some h) honest sane room free b =
      let x : Agent =
        new_agent (first_id h.agent_id s.agent_id) s.name s.parent_id h.state s.tools now in
      let named : first_id h.agent_id s.agent_id ≡ s.agent_id =
        first_id_lem h.agent_id s.agent_id (honest h refl) in
      outside-IsSane (record r { agents = put (first_id h.agent_id s.agent_id) x r.agents }) _ _
        (put-IsSane r (first_id h.agent_id s.agent_id) x sane room (rw named free) refl below)

  spawn_opened-IsSane :
      (make : Spec → Option Handle)
      → Honest (some make)
      → IsSane r
      → is_at_limit r.max_agents (length r.agents) ≡ false
      → has_key s.agent_id r.agents ≡ false
      → (opened : Option Broker × Option RegisterError)
      → IsSane (spawn_opened make now s r opened).0
  spawn_opened-IsSane make honest sane room free (b, some e) = outside-IsSane r b r.handles sane
  spawn_opened-IsSane make honest sane room free (b, none) =
      spawn_handled-IsSane (make s) (honest s) sane room free b

  spawn_with-IsSane :
      (make : Option (Spec → Option Handle))
      → Honest make
      → IsSane r
      → IsSane (spawn_with make now s r).0
  unfolding spawn_checked
  spawn_with-IsSane none honest sane = sane
  spawn_with-IsSane (some make) honest sane =
      elim (Bool-cases (is_at_limit r.max_agents (length r.agents))) [
        | inl full ↦ simp full sane
        | inr room ↦ elim (Bool-cases (has_key s.agent_id r.agents)) [
          | inl taken ↦ simp (room, taken) sane
          | inr free ↦
              simp (room, free)
                (spawn_opened-IsSane make honest sane room free (open_mailbox s.agent_id r.broker))
        ]
      ]

  not_main_core :
      IsSane r → has_key s.agent_id r.agents ≡ false → str_eq r.main_id s.agent_id ≡ false
  not_main_core sane free = elim (Bool-cases (str_eq r.main_id s.agent_id)) [
    | inr other ↦ other
    | inl same ↦
        let there : has_key s.agent_id r.agents ≡ true =
          rw (sym (str_eq→eq r.main_id s.agent_id same)) sane.main_there in
        grind arith
  ]

  register_opened-IsSane :
      (x : Agent)
      → IsSane (record r { agents = put s.agent_id x r.agents })
      → str_eq r.main_id s.agent_id ≡ false
      → (opened : Option Broker × Option RegisterError)
      → IsSane
          (register_opened s.agent_id (record r { agents = put s.agent_id x r.agents }) opened).0
  register_opened-IsSane x sane other (b, none) = outside-IsSane _ b r.handles sane
  register_opened-IsSane x sane other (b, some e) =
      outside-IsSane (record r { agents = remove s.agent_id (put s.agent_id x r.agents) })
        (drop_mailbox s.agent_id b) r.handles
        (remove-IsSane (record r { agents = put s.agent_id x r.agents }) s.agent_id sane other)

  register_checked-IsSane : IsSane r → IsSane (register_checked now s r).0
  unfolding register_checked
  register_checked-IsSane sane = elim (Bool-cases (has_key s.agent_id r.agents)) [
    | inl taken ↦ simp taken sane
    | inr free ↦ elim (Bool-cases (is_at_limit r.max_agents (length r.agents))) [
      | inl full ↦ simp (free, full) sane
      | inr room ↦
          let x : Agent = new_agent s.agent_id s.name s.parent_id starting s.tools now in
          simp (free, room)
            (register_opened-IsSane x (put-IsSane r s.agent_id x sane room free refl below)
              (not_main_core sane free) (open_mailbox s.agent_id r.broker))
    ]
  ]

module _ (itoa : ℕ → String) where
  spawn-IsSane :
      (make : Option (Spec → Option Handle)) (now : ℕ) (parent : String) (s : Spec) (r : Registry)
      → Honest make
      → IsSane r
      → IsSane (spawn itoa make now parent s r).0
  unfolding spawn
  spawn-IsSane make now parent s r honest sane = elim (Bool-cases (str_eq parent r.main_id)) [
    | inl main ↦ simp main (
        spawn_with-IsSane now (completed itoa s.agent_id parent s r) r
          (str_eq→eq parent r.main_id main) make honest sane)
    | inr other ↦ simp other sane
  ]

  register-IsSane :
      (c : Context) (now : ℕ) (by : String) (s : Spec) (r : Registry)
      → IsSane r
      → IsSane (register itoa c now by s r).0
  unfolding register
  register-IsSane nil now by s r sane = sane
  register-IsSane cancelled now by s r sane = sane
  register-IsSane live now by s r sane = elim (Bool-cases (str_eq by r.main_id)) [
    | inl main ↦ simp main (
        register_checked-IsSane now (completed itoa (trim_space s.agent_id) by s r) r
          (str_eq→eq by r.main_id main) sane)
    | inr other ↦ simp other sane
  ]

  abbrev pub Honestly : Action itoa → Type 0
  Honestly (spawns make now parent s) = Honest make
  Honestly _ = Unit

  act-IsSane : (a : Action itoa) (r : Registry) → Honestly a → IsSane r → IsSane (act itoa a r)
  unfolding act set_summary note_message shutdown
  act-IsSane (spawns make now parent s) r honest sane = spawn-IsSane make now parent s r honest sane
  act-IsSane (registers c now by s) r honest sane = register-IsSane c now by s r sane
  act-IsSane (deletes c by id) r honest sane = delete_agent-IsSane c by id r sane
  act-IsSane (sets_state now id state) r honest sane = set_state-IsSane now id state r sane
  act-IsSane (sets_summary now id text) r honest sane =
      update-IsSane id (λ x. record x { summary = text; updated_at = now }) (λ x. refl) (λ x. refl)
        r sane
  act-IsSane (notes_message now id) r honest sane =
      update-IsSane id (λ x. record x { message_count = x.message_count + 1; updated_at = now })
        (λ x. refl) (λ x. refl) r sane
  act-IsSane (finishes now id failure) r honest sane = finish-IsSane now id failure r sane
  act-IsSane shuts_down r honest sane = outside-IsSane r _ [] sane

  -- Whatever the pool, the tools and the agents ask of a registry, one after the other, and
  -- whether it is granted or not: if it was so at first and each handle has the identifier that
  -- its agent was given, or none, then the main core is in the registry, without a parent, each
  -- other agent in it is a child of the main core, each is under its own identifier, and where
  -- there is a limit above 0 there are no more agents than that.
  pub act_each-IsSane :
      (actions : List (Action itoa)) (r : Registry)
      → All Honestly actions
      → IsSane r
      → IsSane (act_each itoa actions r)
  unfolding act_each
  act_each-IsSane [] r honest sane = sane
  act_each-IsSane (a ∷ rest) r honest sane =
      act_each-IsSane rest (act itoa a r) honest.1 (act-IsSane a r honest.0 sane)
