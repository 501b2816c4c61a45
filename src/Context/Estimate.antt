-- ===== src/Context/Estimate.antt =====
-- internal/engine/context/context.go: HeuristicEstimator and the helpers on text. A rune is a code
-- point; a text that is not valid UTF-8 is left out.
use Prim.Native.Char.{code}
use marx_agent.Prelude.{
  ℕ, zero, suc, ◌+◌, ◌-◌, ◌/◌, Bool, ◌&&◌, ◌||◌, String, List, [], ◌∷◌, leb, ◌==◌, if◌then◌else◌,
}
use marx_agent.Core.Message.{ContentType, ContentBlock, Message}

abbrev pub per_message_overhead : ℕ
per_message_overhead = 4

abbrev pub per_block_overhead : ℕ
per_block_overhead = 2

abbrev pub image_token_estimate : ℕ
image_token_estimate = 1500

-- A divisor of 0 stands for one that is not positive.
unfoldable pub ceil_div : ℕ → ℕ → ℕ
ceil_div value divisor = if divisor == 0 then value else (value + divisor - 1) / divisor

abbrev within : ℕ → ℕ → ℕ → Bool
within low high c = leb low c && leb c high

unfoldable pub is_cjk : ℕ → Bool
is_cjk c =
    within 0x4E00 0x9FFF c
    || within 0x3400 0x4DBF c
    || within 0x3040 0x30FF c
    || within 0xAC00 0xD7AF c
    || within 0xF900 0xFAFF c
    || within 0x3000 0x303F c
    || within 0xFF00 0xFFEF c

-- HeuristicEstimator; 0 stands for a value that is not positive.
pub record Heuristic : Type 0 where
  pub ascii_per_token : ℕ
  pub cjk_per_token : ℕ

-- The counts of the loop of EstimateText.
pub record Densities : Type 0 where
  pub dense : ℕ
  pub sparse : ℕ

unfoldable pub count_runes : String → Densities
count_runes String.[] = record { dense = 0; sparse = 0 }
count_runes (String.◌∷◌ c s) =
    let rest = count_runes s in
    if is_cjk (code c)
    then record rest { dense = rest.dense + 1 }
    else record rest { sparse = rest.sparse + 1 }

abbrev or_default : ℕ → ℕ → ℕ
or_default n d = if n == 0 then d else n

unfoldable pub estimate_text : Heuristic → String → ℕ
estimate_text e text =
    ceil_div (count_runes text).dense (or_default e.cjk_per_token 1)
    + ceil_div (count_runes text).sparse (or_default e.ascii_per_token 4)

abbrev by_type : Heuristic → ContentType → ContentBlock → ℕ
by_type e ContentType.thinking b = estimate_text e b.thinking
by_type e ContentType.image b = image_token_estimate
by_type e ContentType.tool_use b = estimate_text e b.tool_name + estimate_text e b.input
by_type e ContentType.tool_result b = estimate_text e b.output
by_type e ContentType.reasoning b = estimate_text e b.encrypted_content
by_type e _ b = estimate_text e b.text

unfoldable pub estimate_block : Heuristic → ContentBlock → ℕ
estimate_block e b = by_type e b.type b

unfoldable pub estimate_blocks : Heuristic → List ContentBlock → ℕ
estimate_blocks e [] = 0
estimate_blocks e (b ∷ bs) = per_block_overhead + estimate_block e b + estimate_blocks e bs

-- Estimate
unfoldable pub estimate_messages : Heuristic → List Message → ℕ
estimate_messages e [] = 0
estimate_messages e (m ∷ ms) =
    per_message_overhead + estimate_blocks e m.content + estimate_messages e ms

unfoldable pub estimate_runes : String → ℕ
estimate_runes String.[] = 0
estimate_runes (String.◌∷◌ c s) = suc (estimate_runes s)

unfoldable pub truncate_runes : String → ℕ → String
truncate_runes text zero = ""
truncate_runes String.[] (suc n) = ""
truncate_runes (String.◌∷◌ c s) (suc n) = String.◌∷◌ c (truncate_runes s n)

-- The two calls of strings.ReplaceAll: `\r\n`, then `\n`.
unfoldable pub normalize_newlines : String → String
normalize_newlines String.[] = ""
normalize_newlines (String.◌∷◌ c String.[]) = if code c == 10 then " " else String.◌∷◌ c String.[]
normalize_newlines (String.◌∷◌ c (String.◌∷◌ d s)) =
    let tail = normalize_newlines s in
    let rest = normalize_newlines (String.◌∷◌ d s) in
    if code c == 13 && code d == 10
    then String.◌∷◌ " " tail
    else if code c == 10
    then String.◌∷◌ " " rest
    else String.◌∷◌ c rest
