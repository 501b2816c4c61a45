-- ===== src/Tools/Pool/Switching.antt =====
-- internal/engine/tools/pool.go, setEnabled: which tools are switched.
use marx_agent.Prelude.{
  ◌≡◌, refl, ap, sym, ◌∙◌, Bool, true, false, ◌&&◌, ◌||◌, String, Option, none, some, List, [], ◌∷◌,
  ◌++◌, str_eq, str_eq→eq, str_eq_refl, is_empty, trim_space, inl, inr, ◌⊎◌, Bool-cases, arith,
}
use marx_agent.Tools.Pool.{
  Entry, Pool, PoolError, find_entry, is_there, switched, switch_entry, Match, matches, differs,
  malformed, Selected, selected, bad, add_match, select_one, both, select_all, switch_all,
  set_selected, set_enabled, no_patterns, empty_pattern,
}

-- Whether the name is one of these.
abbrev pub named : String → List String → Bool
named n [] = false
named n (m ∷ ms) = str_eq n m || named n ms

abbrev is_match : Match → Bool
is_match matches = true
is_match _ = false

-- The entry, switched where this is asked for.
abbrev pub switch_if : Bool → Bool → Option Entry → Option Entry
switch_if true enabled (some e) = some (switched enabled e)
switch_if _ enabled o = o

switch_if-none : (b enabled : Bool) → switch_if b enabled none ≡ none
switch_if-none true enabled = refl
switch_if-none false enabled = refl

-- A name that is one name is not another.
elsewhere : (n name m : String) → n ≡ m → str_eq name m ≡ false → str_eq n name ≡ false
elsewhere n name m same apart = elim (Bool-cases (str_eq n name)) [
  | inl it ↦
      let equal : name ≡ m = sym (str_eq→eq n name it) ∙ same in
      let on : str_eq name m ≡ true = ap (λ t. str_eq t m) equal ∙ str_eq_refl m in
      ground (arith, on, apart)
  | inr off ↦ off
]

switch_entry-find :
    (n name : String) (enabled : Bool) (es : List Entry)
    → find_entry n (switch_entry name enabled es)
      ≡ switch_if (str_eq n name) enabled (find_entry n es)
unfolding find_entry switch_entry
switch_entry-find n name enabled [] = sym (switch_if-none (str_eq n name) enabled)
switch_entry-find n name enabled (e ∷ es) =
    let rest = switch_entry-find n name enabled es in
    elim (Bool-cases (str_eq name e.tool.name)) [
      | inl same ↦
          let here : name ≡ e.tool.name = str_eq→eq name e.tool.name same in
          let alike : str_eq n name ≡ str_eq n e.tool.name = ap (str_eq n) here in
          elim (Bool-cases (str_eq n e.tool.name)) [
            | inl it ↦ simp (same, alike, it) refl
            | inr other ↦
                let off : str_eq n name ≡ false = alike ∙ other in
                simp (same, other, off) (rest ∙ ap (λ b. switch_if b enabled (find_entry n es)) off)
          ]
      | inr apart ↦ elim (Bool-cases (str_eq n e.tool.name)) [
        | inl it ↦
            let n_here : n ≡ e.tool.name = str_eq→eq n e.tool.name it in
            let off : str_eq n name ≡ false = elsewhere n name e.tool.name n_here apart in
            simp (apart, it, off) refl
        | inr other ↦ simp (apart, other) rest
      ]
    ]

named-append : (n : String) (xs ys : List String) → named n (xs ++ ys) ≡ (named n xs || named n ys)
named-append n [] ys = refl
named-append n (x ∷ xs) ys = ground (arith, named-append n xs ys)

and_false : (b : Bool) → false ≡ (b && false)
and_false true = refl
and_false false = refl

and_or : (a b c : Bool) → ((a && b) || (a && c)) ≡ (a && (b || c))
and_or true b c = refl
and_or false b c = refl

switch_if_off : (enabled : Bool) (o : Option Entry) → switch_if false enabled o ≡ o
switch_if_off enabled none = refl
switch_if_off enabled (some e) = refl

switch_if_twice :
    (a b enabled : Bool) (o : Option Entry)
    → switch_if a enabled (switch_if b enabled o) ≡ switch_if (a || b) enabled o
switch_if_twice true true enabled none = refl
switch_if_twice true false enabled none = refl
switch_if_twice false true enabled none = refl
switch_if_twice false false enabled none = refl
switch_if_twice true true enabled (some e) = refl
switch_if_twice true false enabled (some e) = refl
switch_if_twice false true enabled (some e) = refl
switch_if_twice false false enabled (some e) = refl

switch_if_there :
    (b enabled : Bool) (o : Option Entry)
    → switch_if (is_there o && b) enabled o ≡ switch_if b enabled o
switch_if_there b enabled (some e) = refl
switch_if_there true enabled none = refl
switch_if_there false enabled none = refl

module _ (path_match : String → String → Match) where
  -- Whether one of the patterns, without the white space around it, matches the name.
  abbrev pub any_match : List String → String → Bool
  any_match [] n = false
  any_match (p ∷ ps) n = is_match (path_match (trim_space p) n) || any_match ps n

  add_match-cases :
      (m : Match) (name : String) (rest : Selected) (names : List String)
      → add_match m name rest ≡ selected names
      → ((m ≡ matches) × (ns : List String) × (rest ≡ selected ns) × (names ≡ name ∷ ns))
        ⊎ ((m ≡ differs) × (rest ≡ selected names))
  add_match-cases matches name (selected ns) names h = inl (refl, ns, refl, cc)
  add_match-cases differs name (selected ns) names h = inr (refl, h)
  add_match-cases malformed name rest names h = ground (arith, h)
  add_match-cases matches name (bad e) names h = ground (arith, h)
  add_match-cases differs name (bad e) names h = ground (arith, h)

  select_one-named :
      (n pattern : String) (es : List Entry) (names : List String)
      → select_one path_match pattern es ≡ selected names
      → named n names ≡ (is_there (find_entry n es) && is_match (path_match pattern n))
  unfolding find_entry select_one
  select_one-named n pattern [] names h =
      let none_there : [] ≡ names = cc in ap (named n) (sym none_there)
  select_one-named n pattern (e ∷ es) names h =
      let name = e.tool.name in
      elim (add_match-cases (path_match pattern name) name (select_one path_match pattern es) names
        h) [
          | inl (hit, ns, rest, all) ↦ elim (Bool-cases (str_eq n name)) [
            | inl it ↦
                let here : n ≡ name = str_eq→eq n name it in
                let hit_here = ap (path_match pattern) here ∙ hit in simp (all, it, hit_here) refl
            | inr other ↦ simp (all, other) (select_one-named n pattern es ns rest)
          ]
          | inr (miss, rest) ↦ elim (Bool-cases (str_eq n name)) [
            | inl it ↦
                let here : n ≡ name = str_eq→eq n name it in
                let miss_here = ap (path_match pattern) here ∙ miss in
                let none_named = select_one-named n pattern es names rest in
                simp (it, miss_here) (ground (arith, none_named, miss_here))
            | inr other ↦ simp other (select_one-named n pattern es names rest)
          ]
        ]

  both-cases :
      (one rest : Selected) (names : List String)
      → both path_match one rest ≡ selected names
      → (ms : List String) × (ns : List String) × (one ≡ selected ms)
        × (rest ≡ selected ns)
        × (names ≡ ms ++ ns)
  both-cases (bad e) rest names h = ground (arith, h)
  both-cases (selected []) rest names h = ground (arith, h)
  both-cases (selected (m ∷ ms)) (bad e) names h = ground (arith, h)
  both-cases (selected (m ∷ ms)) (selected ns) names h = (m ∷ ms, ns, refl, refl, cc)

  select_all-named :
      (n : String) (patterns : List String) (es : List Entry) (names : List String)
      → select_all path_match patterns es ≡ selected names
      → named n names ≡ (is_there (find_entry n es) && any_match patterns n)
  unfolding select_all
  select_all-named n [] es names h =
      let none_there : [] ≡ names = cc in
      sym (ap (named n) none_there) ∙ and_false (is_there (find_entry n es))
  select_all-named n (p ∷ ps) es names h = elim (Bool-cases (is_empty (trim_space p))) [
    | inl blank ↦
        let off : bad empty_pattern ≡ selected names = simp blank at h in ground (arith, off)
    | inr given ↦
        let pattern = trim_space p in
        let split : both path_match (select_one path_match pattern es) (select_all path_match ps es)
            ≡ selected names =
          simp given at h in
        let (ms, ns, one, rest, all) =
          both-cases (select_one path_match pattern es) (select_all path_match ps es) names split in
        let first = select_one-named n pattern es ms one in
        let others = select_all-named n ps es ns rest in
        ap (named n) all
        ∙ named-append n ms ns
        ∙ ap (λ b. b || named n ns) first
        ∙ ap (λ b. (is_there (find_entry n es) && is_match (path_match pattern n)) || b) others
        ∙ and_or (is_there (find_entry n es)) (is_match (path_match pattern n)) (any_match ps n)
  ]

  switch_all-find :
      (n : String) (enabled : Bool) (names : List String) (es : List Entry)
      → find_entry n (switch_all path_match enabled names es)
        ≡ switch_if (named n names) enabled (find_entry n es)
  switch_all-find n enabled [] es = sym (switch_if_off enabled (find_entry n es))
  switch_all-find n enabled (m ∷ ms) es =
      switch_entry-find n m enabled (switch_all path_match enabled ms es)
      ∙ ap (switch_if (str_eq n m) enabled) (switch_all-find n enabled ms es)
      ∙ switch_if_twice (str_eq n m) (named n ms) enabled (find_entry n es)

  -- Refused with the pool as it was, or done.
  abbrev pub Switched : Bool → List String → Pool → String → Type 0
  Switched enabled patterns p n =
      ((e : PoolError) × (set_enabled path_match enabled patterns p ≡ (p, some e)))
      ⊎ ((set_enabled path_match enabled patterns p).1 ≡ none)
        × (find_entry n (set_enabled path_match enabled patterns p).0.tools
            ≡ switch_if (any_match patterns n) enabled (find_entry n p.tools))

  selected-Switched :
      (enabled : Bool) (patterns : List String) (p : Pool) (n : String) (s : Selected)
      → select_all path_match patterns p.tools ≡ s
      → ((e : PoolError) × (set_selected path_match enabled s p ≡ (p, some e)))
        ⊎ ((set_selected path_match enabled s p).1 ≡ none)
          × (find_entry n (set_selected path_match enabled s p).0.tools
              ≡ switch_if (any_match patterns n) enabled (find_entry n p.tools))
  selected-Switched enabled patterns p n (bad e) h = inl (e, refl)
  selected-Switched enabled patterns p n (selected names) h = inr (
    refl,
    switch_all-find n enabled names p.tools
        ∙ ap (λ b. switch_if b enabled (find_entry n p.tools))
            (select_all-named n patterns p.tools names h)
        ∙ switch_if_there (any_match patterns n) enabled (find_entry n p.tools),
  )

  -- Enable and Disable are all or nothing: they return an error and leave the pool as it was, or
  -- they return none, and then each tool of the pool is switched if one of the patterns, without
  -- the white space around it, matches its name, and is what it was otherwise.
  pub set_enabled-Switched :
      (enabled : Bool) (patterns : List String) (p : Pool) (n : String)
      → Switched enabled patterns p n
  unfolding set_enabled
  set_enabled-Switched enabled [] p n = inl (no_patterns, refl)
  set_enabled-Switched enabled (pattern ∷ patterns) p n =
      selected-Switched enabled (pattern ∷ patterns) p n
        (select_all path_match (pattern ∷ patterns) p.tools) refl
