-- ===== src/Subagent/Registry/Tests.antt =====
-- internal/engine/subagent/registry.go: a main core and three agents.
use marx_agent.Prelude.{
  ℕ, ◌≡◌, refl, String, Option, none, some, List, [], ◌∷◌, map, inl, arith, ◌==◌, if◌then◌else◌,
}
use marx_agent.Prelude.Int.{pos}
use marx_agent.Core.Message.{end}
use marx_agent.Subagent.Mailbox.{new_mailbox, close}
use marx_agent.Subagent.Broker.{
  register as register_mailbox, unregister as unregister_mailbox, without, find_mailbox,
}
use marx_agent.Subagent.World.{shut}
use marx_agent.Subagent.Collect.{live}
use marx_agent.Subagent.Table.{lookup, put, remove}
use marx_agent.Subagent.Registry.{
  running, Spec, Handle, Registry, new_agent, not_main, registry_full, agent_exists, no_such_agent,
  spawn_failed, new_registry, spawn_handled, spawn_checked, register_checked, update, set_state,
  set_summary, note_message, finish, delete_agent, shutdown, spawn, register, Action, spawns,
  registers, deletes, finishes, act, act_each,
}
use marx_agent.Subagent.Registry.Sane.{IsSane}
use marx_agent.Subagent.Registry.Runs.{Honest, act_each-IsSane}

-- Names what the runs below compute with.
unfoldable program : Unit {0}
unfolding new_mailbox close register_mailbox unregister_mailbox without find_mailbox shut lookup put
    remove new_registry spawn_handled spawn_checked register_checked update set_state set_summary
    note_message finish delete_agent shutdown spawn register act act_each
program = tt

abbrev itoa : ℕ → String
itoa n = if n == 1 then "1" else if n == 2 then "2" else "n"

abbrev spec : String → Spec
spec id = record {
  name = "helper";
  system_prompt = "Help.";
  parent_id = "";
  agent_id = id;
  tools = "read" ∷ [];
  metadata = end;
}

-- A spawner that takes the identifier it is given.
abbrev make : Spec → Option Handle
make s = some (record { agent_id = s.agent_id; state = running })

abbrev empty_registry : Registry
empty_registry = record {
  broker = none;
  agents = ("core", new_agent "core" "main" "" running [] 5) ∷ [];
  handles = [];
  main_id = "core";
  max_agents = pos 3;
}

starts : new_registry none "core" (pos 3) 5 ≡ some empty_registry
unfolding program
starts = refl

empty_registry-IsSane : IsSane empty_registry
unfolding lookup
empty_registry-IsSane = record {
  placed = ((refl, inl (refl, refl)), tt);
  main_there = refl;
  limited = omega arith;
}

abbrev ids : Registry → List String
ids r = map (λ e. e.0) r.agents

abbrev after : List (Action itoa) → Registry
after actions = act_each itoa actions empty_registry

abbrev two_agents : List (Action itoa)
two_agents = registers live 6 "core" (spec " ") ∷ spawns (some make) 7 "core" (spec "") ∷ []

names_them : ids (after two_agents) ≡ ("core" ∷ "sub-1" ∷ "sub-2" ∷ [])
unfolding program
names_them = refl

refuses_fourth : (register itoa live 8 "core" (spec "d") (after two_agents)).1 ≡ some registry_full
unfolding program
refuses_fourth = refl

refuses_agent : (spawn itoa (some make) 8 "sub-1" (spec "d") (after two_agents)).1 ≡ some not_main
unfolding program
refuses_agent = refl

keeps_main : (delete_agent live "core" "core" (after two_agents)).1 ≡ some not_main
unfolding program
keeps_main = refl

-- The identifier that is made up for the new agent is that of an agent that is there.
takes_own_name :
    (register itoa live 9 "core"
      (spec "")
      (act itoa (deletes live "core" "sub-1") (after two_agents))).1
    ≡ some agent_exists
unfolding program
takes_own_name = refl

lets_go :
    (after (spawns (some make) 6 "core" (spec "a") ∷ finishes 7 "a" (some "broken") ∷ [])).handles
    ≡ []
unfolding program
lets_go = refl

fails_to_spawn :
    spawn itoa (some (λ s. none)) 6 "core" (spec "a") empty_registry
    ≡ (empty_registry, some spawn_failed)
unfolding program
fails_to_spawn = refl

finishes_nobody : (finish 6 "ghost" none empty_registry).1 ≡ some no_such_agent
unfolding program
finishes_nobody = refl

make-Honest : Honest (some make)
make-Honest s h e = grind arith

act_each-IsSane_example : IsSane (act_each itoa two_agents empty_registry)
act_each-IsSane_example =
    act_each-IsSane itoa two_agents empty_registry (tt, (make-Honest, tt)) empty_registry-IsSane
