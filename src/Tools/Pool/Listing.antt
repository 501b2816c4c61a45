-- ===== src/Tools/Pool/Listing.antt =====
-- internal/engine/tools/pool.go: Tools and Get.
use marx_agent.Prelude.{
  ◌≡◌, refl, ap, sym, ◌∙◌, Bool, true, false, ◌&&◌, not, String, Option, none, some, List, [], ◌∷◌,
  str_eq, str_eq→eq, str_less, if◌then◌else◌, inl, inr, Bool-cases, arith,
}
use marx_agent.Tools.Pool.{
  Tool, Entry, Pool, find_entry, is_there, enabled_tool, get_tool, insert_tool, filtered_tools,
}

-- No two entries have one name, as in a map.
abbrev pub is_keyed : List Entry → Bool
is_keyed [] = true
is_keyed (e ∷ es) = not (is_there (find_entry e.tool.name es)) && is_keyed es

-- No tool stands in front of one that is less.
abbrev pub is_sorted : List Tool → Bool
is_sorted [] = true
is_sorted (t ∷ []) = true
is_sorted (t ∷ u ∷ us) = not (str_less u.name t.name) && is_sorted (u ∷ us)

abbrev pub find_tool : String → List Tool → Option Tool
find_tool name [] = none
find_tool name (t ∷ ts) =
    let found = find_tool name ts in if str_eq name t.name then some t else found

str_less_asymm : (s t : String) → str_less s t ≡ true → str_less t s ≡ false
str_less_asymm String.[] String.[] h = ground arith
str_less_asymm String.[] (String.◌∷◌ d t) h = refl
str_less_asymm (String.◌∷◌ c s) String.[] h = ground arith
str_less_asymm (String.◌∷◌ c s) (String.◌∷◌ d t) h = grind (arith, str_less_asymm s t, h)

insert_tool-is_sorted :
    (t : Tool) (us : List Tool) → is_sorted us ≡ true → is_sorted (insert_tool t us) ≡ true
unfolding insert_tool
insert_tool-is_sorted t [] h = refl
insert_tool-is_sorted t (u ∷ []) h = elim (Bool-cases (str_less u.name t.name)) [
  | inl less ↦ let back = str_less_asymm u.name t.name less in simp (less, back) refl
  | inr least ↦ simp least refl
]
insert_tool-is_sorted t (u ∷ v ∷ us) h =
    let tail : is_sorted (v ∷ us) ≡ true = ground (arith, h) in
    let pair : str_less v.name u.name ≡ false = ground (arith, h) in
    let rest = insert_tool-is_sorted t (v ∷ us) tail in
    elim (Bool-cases (str_less u.name t.name)) [
      | inl less ↦ elim (Bool-cases (str_less v.name t.name)) [
        | inl more ↦
            let inner : is_sorted (v ∷ insert_tool t us) ≡ true = simp more at rest in
            simp (less, more, pair) inner
        | inr here ↦ let back = str_less_asymm u.name t.name less in simp (less, here, back) tail
      ]
      | inr least ↦ simp (least, pair) tail
    ]

str_less_irrefl : (s : String) → str_less s s ≡ false
str_less_irrefl String.[] = refl
str_less_irrefl (String.◌∷◌ c s) = ground (arith, str_less_irrefl s)

less_apart : (n t u : String) → str_eq n t ≡ true → str_less u t ≡ true → str_eq n u ≡ false
less_apart n t u same less = elim (Bool-cases (str_eq n u)) [
  | inl it ↦
      let equal : u ≡ t = sym (str_eq→eq n u it) ∙ str_eq→eq n t same in
      let off : str_less u t ≡ false = ap (str_less u) (sym equal) ∙ str_less_irrefl u in
      ground (arith, off, less)
  | inr off ↦ off
]

insert_tool-find :
    (n : String) (t : Tool) (us : List Tool)
    → find_tool n (insert_tool t us) ≡ (if str_eq n t.name then some t else find_tool n us)
unfolding insert_tool
insert_tool-find n t [] = refl
insert_tool-find n t (u ∷ us) = elim (Bool-cases (str_less u.name t.name)) [
  | inl less ↦ elim (Bool-cases (str_eq n t.name)) [
    | inl it ↦
        let other : str_eq n u.name ≡ false = less_apart n t.name u.name it less in
        simp (less, it, other) (insert_tool-find n t us ∙ simp it refl)
    | inr off ↦
        simp (less, off)
          (ap (λ found. if str_eq n u.name then some u else found)
            (insert_tool-find n t us ∙ simp off refl))
  ]
  | inr least ↦ simp least refl
]

filtered_tools-is_sorted :
    (enabled_only : Bool) (es : List Entry) → is_sorted (filtered_tools enabled_only es) ≡ true
unfolding filtered_tools
filtered_tools-is_sorted enabled_only [] = refl
filtered_tools-is_sorted enabled_only (e ∷ es) =
    let rest = filtered_tools-is_sorted enabled_only es in
    elim (Bool-cases (enabled_only && not e.enabled)) [
      | inl skip ↦ simp skip rest
      | inr keep ↦ simp keep (insert_tool-is_sorted e.tool (filtered_tools enabled_only es) rest)
    ]

not_there : (o : Option Entry) → is_there o ≡ false → o ≡ none
not_there none h = refl
not_there (some e) h = ground arith

filtered_tools-find :
    (n : String) (es : List Entry)
    → is_keyed es ≡ true
    → find_tool n (filtered_tools true es) ≡ enabled_tool (find_entry n es)
unfolding filtered_tools find_entry
filtered_tools-find n [] h = refl
filtered_tools-find n (e ∷ es) h =
    let unique : is_there (find_entry e.tool.name es) ≡ false = ground (arith, h) in
    let keyed : is_keyed es ≡ true = ground (arith, h) in
    let rest = filtered_tools-find n es keyed in
    let all = filtered_tools true es in
    elim (Bool-cases e.enabled) [
      | inl on ↦ elim (Bool-cases (str_eq n e.tool.name)) [
        | inl it ↦ simp (on, it) (insert_tool-find n e.tool all ∙ simp it refl)
        | inr other ↦ simp (on, other) (insert_tool-find n e.tool all ∙ simp other rest)
      ]
      | inr off ↦ elim (Bool-cases (str_eq n e.tool.name)) [
        | inl it ↦
            let here : n ≡ e.tool.name = str_eq→eq n e.tool.name it in
            let gone : is_there (find_entry n es) ≡ false =
              ap (λ m. is_there (find_entry m es)) here ∙ unique in
            simp (off, it) (rest ∙ ap enabled_tool (not_there (find_entry n es) gone))
        | inr other ↦ simp (off, other) rest
      ]
    ]

-- In a pool in which no two tools have one name, the list of the enabled tools is sorted by name,
-- and a name finds in it what Get gives for that name.
pub tools-get_tool :
    (p : Pool) (n : String)
    → is_keyed p.tools ≡ true
    → (is_sorted (filtered_tools true p.tools) ≡ true)
      × (find_tool n (filtered_tools true p.tools) ≡ get_tool n p)
unfolding get_tool
tools-get_tool p n h = (filtered_tools-is_sorted true p.tools, filtered_tools-find n p.tools h)
