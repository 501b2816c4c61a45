-- ===== src/Tools/Pool.antt =====
-- internal/engine/tools/pool.go: a pool of tools. The map is a list of its entries, each under the
-- name that its tool gave when it was registered; a tool always gives the same name.
pub mod Switching
pub mod Listing
use marx_agent.Prelude.{
  ℕ, Bool, true, false, ◌&&◌, ◌||◌, not, String, Option, none, some, List, [], ◌∷◌, ◌++◌, map,
  str_eq, str_less, is_blank, is_empty, trim_space, if◌then◌else◌,
}

-- What Name, Description and Parameters answer.
pub record Tool : Type 0 where
  pub name : String
  pub description : String
  pub parameters : String

-- registeredTool.
pub record Entry : Type 0 where
  pub tool : Tool
  pub enabled : Bool

pub record Pool : Type 0 where
  pub tools : List Entry

pub data PoolError : Type 0 where
  no_inspection : PoolError
  blank_tool : PoolError
  invalid_parameters : PoolError
  already_registered : PoolError
  empty_name : PoolError
  not_registered : PoolError
  no_patterns : PoolError
  empty_pattern : PoolError
  invalid_pattern : PoolError
  unmatched_pattern : PoolError
  nil_context : PoolError

abbrev pub new_pool : Pool
new_pool = record { tools = [] }

unfoldable pub find_entry : String → List Entry → Option Entry
find_entry name [] = none
find_entry name (e ∷ es) =
    let found = find_entry name es in if str_eq name e.tool.name then some e else found

abbrev pub is_there : Option Entry → Bool
is_there none = false
is_there (some e) = true

unfoldable pub remove_entry : String → List Entry → List Entry
remove_entry name [] = []
remove_entry name (e ∷ es) =
    let others = remove_entry name es in if str_eq name e.tool.name then others else e ∷ others

abbrev pub switched : Bool → Entry → Entry
switched enabled e = record e { enabled = enabled }

unfoldable pub switch_entry : String → Bool → List Entry → List Entry
switch_entry name enabled [] = []
switch_entry name enabled (e ∷ es) =
    let others = switch_entry name enabled es in
    if str_eq name e.tool.name then switched enabled e ∷ others else e ∷ others

abbrev pub register_inspected :
    (String → Bool) → Option Tool → Bool → Pool → Pool × Option PoolError
register_inspected is_object none enabled p = (p, some no_inspection)
register_inspected is_object (some t) enabled p =
    if is_blank t.name || is_blank t.description
    then (p, some blank_tool)
    else if not (is_object t.parameters)
    then (p, some invalid_parameters)
    else if is_there (find_entry t.name p.tools)
    then (p, some already_registered)
    else (record { tools = p.tools ++ record { tool = t; enabled = enabled } ∷ [] }, none)

-- register, given what inspectTool gives; none is its error. `is_object` is isJSONObject.
unfoldable pub register : (String → Bool) → Option Tool → Bool → Pool → Pool × Option PoolError
register is_object t enabled p = register_inspected is_object t enabled p

abbrev pub unregister_named : String → Pool → Pool × Option PoolError
unregister_named name p =
    if is_empty name
    then (p, some empty_name)
    else if is_there (find_entry name p.tools)
    then (record { tools = remove_entry name p.tools }, none)
    else (p, some not_registered)

unfoldable pub unregister : String → Pool → Pool × Option PoolError
unregister name p = unregister_named (trim_space name) p

-- SetEnabled.
unfoldable pub set_one : String → Bool → Pool → Pool × Option PoolError
set_one name enabled p =
    if is_blank name
    then (p, some empty_name)
    else if is_there (find_entry name p.tools)
    then (record { tools = switch_entry name enabled p.tools }, none)
    else (p, some not_registered)

abbrev pub enabled_tool : Option Entry → Option Tool
enabled_tool none = none
enabled_tool (some e) = if e.enabled then some e.tool else none

-- Get.
unfoldable pub get_tool : String → Pool → Option Tool
get_tool name p = enabled_tool (find_entry name p.tools)

abbrev pub entry_tool : Option Entry → Option Tool
entry_tool none = none
entry_tool (some e) = some e.tool

unfoldable pub lookup : String → Pool → Option Tool
lookup name p = entry_tool (find_entry name p.tools)

-- Execute as far as the tool's own Execute: the tool that runs, or the error.
pub data Executed : Type 0 where
  runs : Tool → Executed
  fails : PoolError → Executed

abbrev pub run_found : Option Tool → Executed
run_found none = fails not_registered
run_found (some t) = runs t

unfoldable pub execute : Bool → String → Pool → Executed
execute has_context name p = if has_context then run_found (get_tool name p) else fails nil_context

-- path.Match: whether the name matches the pattern, or that the pattern is malformed.
pub data Match : Type 0 where
  matches : Match
  differs : Match
  malformed : Match

-- The loop of setEnabled over the tools for one pattern: the selected names, or the error.
pub data Selected : Type 0 where
  selected : List String → Selected
  bad : PoolError → Selected

abbrev pub add_match : Match → String → Selected → Selected
add_match malformed name rest = bad invalid_pattern
add_match m name (bad e) = bad e
add_match matches name (selected names) = selected (name ∷ names)
add_match differs name (selected names) = selected names

module _ (path_match : String → String → Match) where
  unfoldable pub select_one : String → List Entry → Selected
  select_one pattern [] = selected []
  select_one pattern (e ∷ es) =
      add_match (path_match pattern e.tool.name) e.tool.name (select_one pattern es)

  abbrev pub both : Selected → Selected → Selected
  both (bad e) rest = bad e
  both (selected []) rest = bad unmatched_pattern
  both (selected (n ∷ ns)) (bad e) = bad e
  both (selected (n ∷ ns)) (selected rest) = selected ((n ∷ ns) ++ rest)

  -- The loop of setEnabled over the patterns.
  unfoldable pub select_all : List String → List Entry → Selected
  select_all [] es = selected []
  select_all (pattern ∷ patterns) es =
      let rest = select_all patterns es in
      if is_empty (trim_space pattern)
      then bad empty_pattern
      else both (select_one (trim_space pattern) es) rest

  abbrev pub switch_all : Bool → List String → List Entry → List Entry
  switch_all enabled [] es = es
  switch_all enabled (n ∷ ns) es = switch_entry n enabled (switch_all enabled ns es)

  abbrev pub set_selected : Bool → Selected → Pool → Pool × Option PoolError
  set_selected enabled (bad e) p = (p, some e)
  set_selected enabled (selected names) p =
      (record { tools = switch_all enabled names p.tools }, none)

  -- setEnabled.
  unfoldable pub set_enabled : Bool → List String → Pool → Pool × Option PoolError
  set_enabled enabled [] p = (p, some no_patterns)
  set_enabled enabled (pattern ∷ patterns) p =
      set_selected enabled (select_all (pattern ∷ patterns) p.tools) p

-- The tools that pass, and the insertion that stands for sort.Slice by name.
unfoldable pub insert_tool : Tool → List Tool → List Tool
insert_tool t [] = t ∷ []
insert_tool t (u ∷ us) =
    let rest = insert_tool t us in if str_less u.name t.name then u ∷ rest else t ∷ u ∷ us

unfoldable pub filtered_tools : Bool → List Entry → List Tool
filtered_tools enabled_only [] = []
filtered_tools enabled_only (e ∷ es) =
    let rest = filtered_tools enabled_only es in
    if enabled_only && not e.enabled then rest else insert_tool e.tool rest
