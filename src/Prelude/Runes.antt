-- ===== src/Prelude/Runes.antt =====
-- The code points of a text: their bytes, and those that are white space.
use Prim.Native.String.{String}
use Prim.Native.Char.{code}
use Prim.Native.Nat.{ℕ, ◌+◌}
use mathlib.Core.Bool.{Bool, true, false, ◌&&◌, ◌||◌}
use marx_agent.Prelude.Tests.{ltb, ◌==◌, if◌then◌else◌}

-- The bytes of a code point in UTF-8.
abbrev utf8_bytes : ℕ → ℕ
utf8_bytes c = if ltb c 0x80 then 1 else if ltb c 0x800 then 2 else if ltb c 0x10000 then 3 else 4

-- Go's `len(s)`.
abbrev pub byte_length : String → ℕ
byte_length String.[] = 0
byte_length (String.◌∷◌ c s) = utf8_bytes (code c) + byte_length s

-- unicode.IsSpace.
abbrev pub is_space : ℕ → Bool
is_space c =
    (ltb 8 c && ltb c 14)
    || c == 32
    || c == 0x85
    || c == 0xA0
    || c == 0x1680
    || (ltb 0x1FFF c && ltb c 0x200B)
    || c == 0x2028
    || c == 0x2029
    || c == 0x202F
    || c == 0x205F
    || c == 0x3000

-- Go's `strings.TrimSpace(s) == ""`.
abbrev pub is_blank : String → Bool
is_blank String.[] = true
is_blank (String.◌∷◌ c s) = is_space (code c) && is_blank s

abbrev trim_left : String → String
trim_left String.[] = String.[]
trim_left (String.◌∷◌ c s) =
    let rest = trim_left s in if is_space (code c) then rest else String.◌∷◌ c s

abbrev trim_right : String → String
trim_right String.[] = String.[]
trim_right (String.◌∷◌ c s) =
    let rest = trim_right s in
    if is_space (code c) && is_blank s then String.[] else String.◌∷◌ c rest

-- Go's strings.TrimSpace.
abbrev pub trim_space : String → String
trim_space s = trim_right (trim_left s)

-- Go's `<` on valid texts: the order of UTF-8 is that of code points.
abbrev pub str_less : String → String → Bool
str_less String.[] String.[] = false
str_less String.[] (String.◌∷◌ d t) = true
str_less (String.◌∷◌ c s) String.[] = false
str_less (String.◌∷◌ c s) (String.◌∷◌ d t) =
    ltb (code c) (code d) || (code c == code d && str_less s t)
