-- ===== src/Core/Assembly/Idempotence.antt =====
-- internal/core/agent.go, normalizeConfig: normalizing again changes nothing.
use marx_agent.Prelude.{
  ◌≡◌, refl, ap, sym, ◌∙◌, Bool, true, false, String, Option, List, [], ◌∷◌, All, none, some,
  is_empty, is_blank, if◌then◌else◌, inl, inr, Bool-cases, arith,
}
use marx_agent.Prelude.Int.{ℤ, pos, eq_ℤ}
use marx_agent.Core.Validate.{Std}
use marx_agent.Core.Assembly.{
  AgentConfig, ConfigError, fail_if, first_failure, config_checks, fields_error, default_to,
  filled_id, lacks_id, defaulted, config_error, normalized, accepted_config, normalize_config,
}

fail_if-none :
    {E : Type 0} (b : Bool) (e : E) (rest : Option E)
    → fail_if b e rest ≡ none
    → (b ≡ false) × (rest ≡ none)
fail_if-none true e rest h = ground (arith, h)
fail_if-none false e rest h = (refl, h)

no_failure :
    (checks : List (Bool × ConfigError)) (rest : Option ConfigError)
    → first_failure checks rest ≡ none
    → All (λ check. check.0 ≡ false) checks
no_failure [] rest h = tt
no_failure ((hit, e) ∷ checks) rest h =
    let (off, others) = fail_if-none hit e (first_failure checks rest) h in
    (off, no_failure checks rest others)

default_to_twice :
    (d n : ℤ) → eq_ℤ d (pos 0) ≡ false → default_to d (default_to d n) ≡ default_to d n
default_to_twice d n h = elim (Bool-cases (eq_ℤ n (pos 0))) [
  | inl zero_now ↦ simp (zero_now, h) refl
  | inr other ↦ simp (other, other) refl
]

nonblank-nonempty : (s : String) → is_blank s ≡ false → is_empty s ≡ false
nonblank-nonempty String.[] h = ground (arith, h)
nonblank-nonempty (String.◌∷◌ c s) h = refl

filled_id_nonempty :
    (uuid : Option String) (id : String) → is_empty id ≡ false → filled_id uuid id ≡ id
filled_id_nonempty none id h = refl
filled_id_nonempty (some u) id h = simp h refl

lacks_id_nonempty :
    (uuid : Option String) (id : String) → is_empty id ≡ false → lacks_id uuid id ≡ false
lacks_id_nonempty none id h = h
lacks_id_nonempty (some u) id h = refl

session_nonempty :
    (id session : String)
    → is_empty id ≡ false
    → is_empty (if is_empty session then id else session) ≡ false
session_nonempty id session h = elim (Bool-cases (is_empty session)) [
  | inl gone ↦ simp gone h
  | inr there ↦ simp (there, there) refl
]

defaulted_twice :
    (uuid more : Option String) (c : AgentConfig)
    → is_empty (defaulted uuid c).agent_id ≡ false
    → defaulted more (defaulted uuid c) ≡ defaulted uuid c
unfolding defaulted
defaulted_twice uuid more c h =
    let id = filled_id uuid c.agent_id in
    let session = session_nonempty id c.session_id h in
    simp
      (
        default_to_twice (pos 16) c.max_iterations refl,
        default_to_twice (pos 64) c.event_buffer refl,
        filled_id_nonempty more id h,
        session,
      )
      refl

module _ (std : Std) where
  accepted_config-normalized :
      (d c : AgentConfig) (e : Option ConfigError)
      → accepted_config std d e ≡ normalized c
      → (e ≡ none) × (d ≡ c)
  accepted_config-normalized d c none h = (refl, cc)
  accepted_config-normalized d c (some e) h = ground (arith, h)

  -- What config_error passes has an agent ID, and passes where no ID has to be generated.
  config_error-none :
      (no_uuid : Bool) (c : AgentConfig)
      → config_error std no_uuid c ≡ none
      → (no_uuid ≡ false) × (is_empty c.agent_id ≡ false)
  unfolding config_error
  config_error-none no_uuid c h =
      let off = no_failure (config_checks no_uuid c) (fields_error std c) h in
      (off.1.1.1.1.1.0, nonblank-nonempty c.agent_id off.1.1.1.1.1.1.0)

  -- A configuration that normalizeConfig gives is given back by it unchanged, whatever the random
  -- source does.
  pub normalize_config-normalized :
      (uuid more : Option String) (c d : AgentConfig)
      → normalize_config std uuid c ≡ normalized d
      → normalize_config std more d ≡ normalized d
  unfolding normalize_config
  normalize_config-normalized uuid more c d h =
      let filled = defaulted uuid c in
      let no_uuid = lacks_id uuid c.agent_id in
      let (fine, same) = accepted_config-normalized filled d (config_error std no_uuid filled) h in
      let (had, there) = config_error-none no_uuid filled fine in
      let twice = defaulted_twice uuid more c there in
      let again : config_error std false filled ≡ none =
        ap (λ b. config_error std b filled) (sym had) ∙ fine in
      rw (sym same) (simp (twice, lacks_id_nonempty more filled.agent_id there, again) refl)
