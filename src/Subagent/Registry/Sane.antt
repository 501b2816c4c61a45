-- ===== src/Subagent/Registry/Sane.antt =====
-- internal/engine/subagent/registry.go: one level of agents below one main core, and their number.
use marx_agent.Prelude.{
  ℕ, zero, suc, ◌≡◌, ◌≢◌, refl, ◌⊎◌, ◌≤◌, String, true, false, Option, none, some, List, inl, inr,
  Bool-cases, All, length, str_eq, str_eq_iff, arith,
}
use marx_agent.Prelude.Int.{ℤ, pos, negsuc}
use marx_agent.Subagent.Collect.{Context, nil, cancelled, live}
use marx_agent.Subagent.Broker.{Broker}
use marx_agent.Subagent.Table.{
  lookup, has_key, put, remove, put-All, remove-All, lookup-All, put-has_key, remove-has_key,
  length-put, length-put_old, length-remove,
}
use marx_agent.Subagent.Registry.{
  State, Agent, Handle, Registry, RegistryError, is_at_limit, update_found, update, has_ended,
  release, set_state, state_of, note_error, finish_set, finish, delete_agent,
}

-- An entry is under its identifier, and is the main core without a parent or one below the main core.
abbrev pub Placed : String → String → Agent → Type 0
Placed main key x =
    (x.id ≡ key) × (((key ≡ main) × (x.parent_id ≡ "")) ⊎ ((key ≢ main) × (x.parent_id ≡ main)))

-- The number of agents is within a limit above 0.
abbrev pub InLimit : ℤ → ℕ → Type 0
InLimit (pos (suc n)) count = count ≤ suc n
InLimit _ count = Unit

pub record IsSane (r : Registry) : Type 0 where
  pub placed : All (λ e. Placed r.main_id e.0 e.1) r.agents
  pub main_there : has_key r.main_id r.agents ≡ true
  pub limited : InLimit r.max_agents (length r.agents)

less-InLimit : (limit : ℤ) (m n : ℕ) → m ≤ n → InLimit limit n → InLimit limit m
less-InLimit (pos zero) m n l h = tt
less-InLimit (pos (suc k)) m n l h = omega arith
less-InLimit (negsuc k) m n l h = tt

is_at_limit-InLimit : (limit : ℤ) (n : ℕ) → is_at_limit limit n ≡ false → InLimit limit (suc n)
is_at_limit-InLimit (pos zero) n h = tt
is_at_limit-InLimit (pos (suc k)) n h = ground arith
is_at_limit-InLimit (negsuc k) n h = tt

-- A new agent below the main core, under a name that no agent has.
pub put-IsSane :
    (r : Registry) (key : String) (x : Agent)
    → IsSane r
    → is_at_limit r.max_agents (length r.agents) ≡ false
    → has_key key r.agents ≡ false
    → x.id ≡ key
    → x.parent_id ≡ r.main_id
    → IsSane (record r { agents = put key x r.agents })
put-IsSane r key x s room new named below = record {
  placed =
      put-All (Placed r.main_id) key x r.agents
        (
          named,
          inr (
            (λ e. let there : has_key key r.agents ≡ true = rw e s.main_there in grind arith),
            below,
          ),
        )
        s.placed;
  main_there = put-has_key key r.main_id x r.agents s.main_there;
  limited =
      less-InLimit r.max_agents (length (put key x r.agents)) (suc (length r.agents))
        (length-put key x r.agents) (is_at_limit-InLimit r.max_agents (length r.agents) room);
}

pub outside-IsSane :
    (r : Registry) (b : Option Broker) (hs : List (String × Handle))
    → IsSane r
    → IsSane (record r { broker = b; handles = hs })
outside-IsSane r b hs s = record {
  placed = s.placed;
  main_there = s.main_there;
  limited = s.limited;
}

pub remove-IsSane :
    (r : Registry) (key : String)
    → IsSane r
    → str_eq r.main_id key ≡ false
    → IsSane (record r { agents = remove key r.agents })
remove-IsSane r key s other = record {
  placed = remove-All (Placed r.main_id) key r.agents s.placed;
  main_there = remove-has_key key r.main_id r.agents other s.main_there;
  limited =
      less-InLimit r.max_agents (length (remove key r.agents)) (length r.agents)
        (length-remove key r.agents) s.limited;
}

-- A change of an agent that keeps its identifier and its parent.
module _ (id : String) (f : Agent → Agent) (same_id : (x : Agent) → (f x).id ≡ x.id)
    (same_parent : (x : Agent) → (f x).parent_id ≡ x.parent_id) where
  update_found-IsSane :
      (r : Registry) (x : Option Agent)
      → IsSane r
      → lookup id r.agents ≡ x
      → IsSane (update_found id f r x).0
  update_found-IsSane r none s there = s
  update_found-IsSane r (some x) s there =
      let (named, place) = lookup-All (Placed r.main_id) id x r.agents s.placed there in
      record {
        placed =
            put-All (Placed r.main_id) id (f x) r.agents
              (rw (same_id x) named, rw (same_parent x) place) s.placed;
        main_there = put-has_key id r.main_id (f x) r.agents s.main_there;
        limited = rw (length-put_old id (f x) x r.agents there) s.limited;
      }

  pub update-IsSane : (r : Registry) → IsSane r → IsSane (update id f r).0
  unfolding update
  update-IsSane r s = update_found-IsSane r (lookup id r.agents) s refl

release-IsSane :
    (id : String) (state : State) (out : Registry × Option RegistryError)
    → IsSane out.0
    → IsSane (release id state out).0
release-IsSane id state (r, some e) s = s
release-IsSane id state (r, none) s = elim (Bool-cases (has_ended state)) [
  | inl over ↦ simp over (outside-IsSane r r.broker (remove id r.handles) s)
  | inr on ↦ simp on s
]

pub set_state-IsSane :
    (now : ℕ) (id : String) (state : State) (r : Registry)
    → IsSane r
    → IsSane (set_state now id state r).0
unfolding set_state
set_state-IsSane now id state r s =
    let f : Agent → Agent = λ x. record x { state = state; updated_at = now } in
    release-IsSane id state (update id f r) (update-IsSane id f (λ x. refl) (λ x. refl) r s)

note_error-IsSane :
    (id : String) (failure : Option String) (r : Registry)
    → IsSane r
    → IsSane (note_error id failure r)
note_error-IsSane id none r s = s
note_error-IsSane id (some text) r s =
    update-IsSane id (λ x. record x { err = text }) (λ x. refl) (λ x. refl) r s

finish_set-IsSane :
    (id : String) (failure : Option String) (out : Registry × Option RegistryError)
    → IsSane out.0
    → IsSane (finish_set id failure out).0
finish_set-IsSane id failure (r, some e) s = s
finish_set-IsSane id failure (r, none) s =
    outside-IsSane (note_error id failure r) _ _ (note_error-IsSane id failure r s)

pub finish-IsSane :
    (now : ℕ) (id : String) (failure : Option String) (r : Registry)
    → IsSane r
    → IsSane (finish now id failure r).0
unfolding finish
finish-IsSane now id failure r s =
    finish_set-IsSane id failure (set_state now id (state_of failure) r)
      (set_state-IsSane now id (state_of failure) r s)

pub delete_agent-IsSane :
    (c : Context) (by id : String) (r : Registry) → IsSane r → IsSane (delete_agent c by id r).0
unfolding delete_agent
delete_agent-IsSane nil by id r s = s
delete_agent-IsSane cancelled by id r s = s
delete_agent-IsSane live by id r s = elim (Bool-cases (str_eq by r.main_id)) [
  | inr other ↦ simp other s
  | inl main ↦ elim (Bool-cases (str_eq id r.main_id)) [
    | inl itself ↦ simp (main, itself) s
    | inr below ↦ elim (Bool-cases (has_key id r.agents)) [
      | inr unknown ↦ simp (main, below, unknown) s
      | inl there ↦
          let apart : str_eq r.main_id id ≡ false =
            grind (arith, str_eq_iff id r.main_id, str_eq_iff r.main_id id) in
          simp (main, below, there)
            (outside-IsSane (record r { agents = remove id r.agents }) _ _
              (remove-IsSane r id s apart))
    ]
  ]
]
