-- ===== src/Subagent/Table.antt =====
-- internal/engine/subagent/registry.go: a Go map with string keys, as the list of its entries in the
-- order in which they came in.
use marx_agent.Prelude.{
  ◌≡◌, refl, sym, ◌≤◌, suc, String, Bool, true, false, List, [], ◌∷◌, Option, none, some, inl, inr,
  Bool-cases, All, length, str_eq, str_eq→eq, arith, if◌then◌else◌,
}

module _ {A : Type 0} where
  -- `value, exists := table[key]`
  unfoldable pub lookup : String → List (String × A) → Option A
  lookup key [] = none
  lookup key ((k, x) ∷ rest) = let found = lookup key rest in if str_eq key k then some x else found

  abbrev pub is_some : Option A → Bool
  is_some none = false
  is_some (some x) = true

  abbrev pub has_key : String → List (String × A) → Bool
  has_key key table = is_some (lookup key table)

  -- `table[key] = value`
  unfoldable pub put : String → A → List (String × A) → List (String × A)
  put key x [] = (key, x) ∷ []
  put key x ((k, y) ∷ rest) =
      let rest' = put key x rest in if str_eq key k then (k, x) ∷ rest else (k, y) ∷ rest'

  -- `delete(table, key)`
  unfoldable pub remove : String → List (String × A) → List (String × A)
  remove key [] = []
  remove key ((k, x) ∷ rest) =
      let rest' = remove key rest in if str_eq key k then rest' else (k, x) ∷ rest'

  pub put-All :
      (P : String → A → Type 0) (key : String) (x : A) (table : List (String × A))
      → P key x
      → All (λ e. P e.0 e.1) table
      → All (λ e. P e.0 e.1) (put key x table)
  unfolding put
  put-All P key x [] p h = (p, tt)
  put-All P key x ((k, y) ∷ rest) p h = elim (Bool-cases (str_eq key k)) [
    | inl same ↦ simp same (rw (sym (str_eq→eq key k same)) p, h.1)
    | inr other ↦ simp other (h.0, put-All P key x rest p h.1)
  ]

  pub remove-All :
      (P : String → A → Type 0) (key : String) (table : List (String × A))
      → All (λ e. P e.0 e.1) table
      → All (λ e. P e.0 e.1) (remove key table)
  unfolding remove
  remove-All P key [] h = h
  remove-All P key ((k, y) ∷ rest) h = elim (Bool-cases (str_eq key k)) [
    | inl same ↦ simp same (remove-All P key rest h.1)
    | inr other ↦ simp other (h.0, remove-All P key rest h.1)
  ]

  pub lookup-All :
      (P : String → A → Type 0) (key : String) (x : A) (table : List (String × A))
      → All (λ e. P e.0 e.1) table
      → lookup key table ≡ some x
      → P key x
  unfolding lookup
  lookup-All P key x [] h e = grind arith
  lookup-All P key x ((k, y) ∷ rest) h e = elim (Bool-cases (str_eq key k)) [
    | inl same ↦
        let found : ◌≡◌ {A = Option A} (some y) (some x) = simp same at e in
        let value : y ≡ x = grind arith in rw (str_eq→eq key k same, sym value) h.0
    | inr other ↦ lookup-All P key x rest h.1 (simp other at e)
  ]

  pub put-has_key :
      (key other : String) (x : A) (table : List (String × A))
      → has_key other table ≡ true
      → has_key other (put key x table) ≡ true
  unfolding lookup put
  put-has_key key other x [] h = grind arith
  put-has_key key other x ((k, y) ∷ rest) h = elim (Bool-cases (str_eq key k)) [
    | inl same ↦ elim (Bool-cases (str_eq other k)) [
      | inl there ↦ simp (same, there) refl
      | inr beyond ↦ simp (same, beyond) (simp beyond at h)
    ]
    | inr differs ↦ elim (Bool-cases (str_eq other k)) [
      | inl there ↦ simp (differs, there) refl
      | inr beyond ↦ simp (differs, beyond) (put-has_key key other x rest (simp beyond at h))
    ]
  ]

  pub remove-has_key :
      (key other : String) (table : List (String × A))
      → str_eq other key ≡ false
      → has_key other table ≡ true
      → has_key other (remove key table) ≡ true
  unfolding lookup remove
  remove-has_key key other [] u h = h
  remove-has_key key other ((k, y) ∷ rest) u h = elim (Bool-cases (str_eq key k)) [
    | inl same ↦
        let beyond : str_eq other k ≡ false = rw (sym (str_eq→eq key k same)) u in
        simp same (remove-has_key key other rest u (simp beyond at h))
    | inr differs ↦ elim (Bool-cases (str_eq other k)) [
      | inl there ↦ simp (differs, there) refl
      | inr beyond ↦ simp (differs, beyond) (remove-has_key key other rest u (simp beyond at h))
    ]
  ]

  pub length-put :
      (key : String) (x : A) (table : List (String × A))
      → length (put key x table) ≤ suc (length table)
  unfolding put
  length-put key x [] = omega arith
  length-put key x ((k, y) ∷ rest) = elim (Bool-cases (str_eq key k)) [
    | inl same ↦ simp same (omega arith)
    | inr other ↦ let more = length-put key x rest in simp other (omega arith)
  ]

  pub length-put_old :
      (key : String) (x old : A) (table : List (String × A))
      → lookup key table ≡ some old
      → length (put key x table) ≡ length table
  unfolding put lookup
  length-put_old key x old [] h = grind arith
  length-put_old key x old ((k, y) ∷ rest) h = elim (Bool-cases (str_eq key k)) [
    | inl same ↦ simp same refl
    | inr other ↦
        let same = length-put_old key x old rest (simp other at h) in simp other (omega arith)
  ]

  pub length-remove :
      (key : String) (table : List (String × A)) → length (remove key table) ≤ length table
  unfolding remove
  length-remove key [] = omega arith
  length-remove key ((k, y) ∷ rest) = elim (Bool-cases (str_eq key k)) [
    | inl same ↦ let less = length-remove key rest in simp same (omega arith)
    | inr other ↦ let less = length-remove key rest in simp other (omega arith)
  ]
