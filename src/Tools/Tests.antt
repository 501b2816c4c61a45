-- ===== src/Tools/Tests.antt =====
-- internal/engine/tools/pool.go: a pool of three tools.
use marx_agent.Prelude.{
  ◌≡◌, refl, String, Bool, true, false, none, some, [], ◌∷◌, map, str_eq, if◌then◌else◌,
}
use marx_agent.Tools.Pool.{
  Tool, Pool, not_registered, new_pool, find_entry, remove_entry, switch_entry, register,
  unregister, set_one, get_tool, lookup, execute, Match, matches, differs, select_one, select_all,
  set_enabled, insert_tool, filtered_tools,
}
use marx_agent.Tools.Pool.Switching.{Switched, set_enabled-Switched}
use marx_agent.Tools.Pool.Listing.{is_sorted, find_tool, is_keyed, tools-get_tool}

-- Names what the runs below compute with.
unfoldable program : Unit {0}
unfolding find_entry remove_entry switch_entry register unregister set_one get_tool lookup execute
    select_one select_all set_enabled insert_tool filtered_tools
program = tt

abbrev named : String → Tool
named name = record { name = name; description = "does"; parameters = "{}" }

abbrev any_object : String → Bool
any_object text = true

-- A matcher for patterns without special characters.
abbrev exact : String → String → Match
exact pattern name = if str_eq pattern name then matches else differs

abbrev pool : Pool
unfolding program
pool =
    let one = (register any_object (some (named "read")) false new_pool).0 in
    let two = (register any_object (some (named "edit")) true one).0 in
    (register any_object (some (named " odd")) true two).0

listed : map (λ t. t.name) (filtered_tools true pool.tools) ≡ " odd" ∷ "edit" ∷ []
unfolding program pool
listed = refl

-- A tool whose name begins or ends in white space is registered and never unregistered.
stuck : (unregister " odd" pool).1 ≡ some not_registered
unfolding program pool
stuck = refl

set_enabled-Switched_example : Switched exact true ("read" ∷ " edit " ∷ []) pool "read"
set_enabled-Switched_example = set_enabled-Switched exact true ("read" ∷ " edit " ∷ []) pool "read"

enabled_now : (set_enabled exact true ("read" ∷ " edit " ∷ []) pool).1 ≡ none
unfolding program pool
enabled_now = refl

pool-is_keyed : is_keyed pool.tools ≡ true
unfolding program pool
pool-is_keyed = refl

tools-get_tool_example :
    (is_sorted (filtered_tools true pool.tools) ≡ true)
    × (find_tool "edit" (filtered_tools true pool.tools) ≡ get_tool "edit" pool)
tools-get_tool_example = tools-get_tool pool "edit" pool-is_keyed
