-- ===== src/Prelude/Texts.antt =====
-- Texts: the test for equality, the empty text, and its laws.
use Prim.Native.String.{String}
use mathlib.Core.Path.{◌≡◌}
use mathlib.Core.Bool.{Bool, true, false}
use mathlib.Core.Logic.{◌≢◌}
use text.Mathlib.Text.{◌==◌}
use text.Mathlib.TextEquality.{eq_iff}
use native.Mathlib.Omega.{arith}
pub use text.Mathlib.Text.{◌==◌ as str_eq}
pub use text.Mathlib.TextEquality.{eq_iff as str_eq_iff}
pub use text.Mathlib.TextPositions.{eq_refl as str_eq_refl}
pub use Prim.Native.String.{◌++◌ as str_append}

-- Go's `s == ""`.
abbrev pub is_empty : String → Bool
is_empty String.[] = true
is_empty (String.◌∷◌ c s) = false

pub str_eq_false : (s t : String) → s ≢ t → (s == t) ≡ false
str_eq_false s t h = grind (arith, eq_iff s t)

pub str_eq→eq : (s t : String) → (s == t) ≡ true → s ≡ t
str_eq→eq s t h = (eq_iff s t).0 h
