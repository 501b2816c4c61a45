-- ===== src/Core/Accumulator/Text.antt =====
-- internal/core/loop.go, messageAccumulator: the text of the message that chunks make.
use text.Mathlib.TextLemmas.{
  nil-append, append-nil as str_append-nil, append_assoc as str_append_assoc,
}
use marx_agent.Prelude.{
  ◌≡◌, refl, sym, ap, ◌∙◌, Bool, true, false, Option, none, some, List, [], ◌∷◌, ◌++◌, ◌==◌, inl,
  inr, arith, String, str_append, is_empty, Bool-cases, if◌then◌else◌,
}
use marx_agent.Core.Message.{ContentType, ContentBlock, zero_block, StreamType, StreamChunk}
use marx_agent.Core.Error.{Error}
use marx_agent.Core.Validate.{Std, validate_content_block}
use marx_agent.Core.Accumulator.{
  Accumulator, type_code, type_eq, merge, append_or_merge, add_credentials, with_input, keep_call,
  add_call, add_body, add_unless, add,
}

abbrev pub is_text : ContentType → Bool
is_text ContentType.text = true
is_text _ = false

-- The text that a reader of the message sees.
abbrev pub text_of : List ContentBlock → String
text_of [] = ""
text_of (b ∷ bs) = if is_text b.type then str_append b.text (text_of bs) else text_of bs

-- The text that a chunk carries. (A tool call chunk may hold a text block.)
abbrev pub block_text : Option ContentBlock → String
block_text none = ""
block_text (some b) = if is_text b.type then b.text else ""

abbrev type_text : StreamType → StreamChunk Error → String
type_text StreamType.text c = c.text
type_text StreamType.tool_call c = block_text c.tool_call
type_text _ c = ""

abbrev pub chunk_text : StreamChunk Error → String
chunk_text c = type_text c.type c

merge-type : (t : ContentType) (last block : ContentBlock) → (merge t last block).type ≡ last.type
merge-type ContentType.text last block = refl
merge-type ContentType.image last block = refl
merge-type ContentType.tool_use last block = refl
merge-type ContentType.tool_result last block = refl
merge-type ContentType.thinking last block = refl
merge-type ContentType.reasoning last block = refl
merge-type ContentType.structured last block = refl
merge-type (ContentType.other_type s) last block = refl

is_text-code : (t : ContentType) → is_text t ≡ type_code t == 0
is_text-code ContentType.text = refl
is_text-code ContentType.image = refl
is_text-code ContentType.tool_use = refl
is_text-code ContentType.tool_result = refl
is_text-code ContentType.thinking = refl
is_text-code ContentType.reasoning = refl
is_text-code ContentType.structured = refl
is_text-code (ContentType.other_type s) = refl

merge-body :
    (t : ContentType) (last block : ContentBlock)
    → (merge t last block).text ≡ (if is_text t then str_append last.text block.text else last.text)
merge-body ContentType.text last block = refl
merge-body ContentType.image last block = refl
merge-body ContentType.tool_use last block = refl
merge-body ContentType.tool_result last block = refl
merge-body ContentType.thinking last block = refl
merge-body ContentType.reasoning last block = refl
merge-body ContentType.structured last block = refl
merge-body (ContentType.other_type s) last block = refl

type_eq-is_text : (t u : ContentType) → type_eq t u ≡ true → is_text t ≡ is_text u
type_eq-is_text t u h = ground (arith, is_text-code t, is_text-code u)

merge-text :
    (t : ContentType) (last block : ContentBlock)
    → type_eq last.type t ≡ true
    → block.type ≡ t
    → text_of (merge t last block ∷ []) ≡ str_append (text_of (last ∷ [])) (text_of (block ∷ []))
merge-text t last block h e =
    rw (merge-type t last block, merge-body t last block, type_eq-is_text last.type t h, e)
      elim (Bool-cases (is_text t)) [
        | inl i ↦ rw i simp str_append-nil
        | inr i ↦ rw i simp str_append-nil
      ]

text_of-append_or_merge :
    (block : ContentBlock) (bs : List ContentBlock)
    → text_of (append_or_merge block bs) ≡ str_append (text_of bs) (text_of (block ∷ []))
unfolding append_or_merge
text_of-append_or_merge block [] = sym (nil-append _)
text_of-append_or_merge block (last ∷ []) = elim (Bool-cases (type_eq last.type block.type)) [
  | inl e ↦ rw e (merge-text block.type last block e refl)
  | inr e ↦ rw e elim (Bool-cases (is_text last.type)) [
    | inl i ↦ rw i simp str_append-nil
    | inr i ↦ rw i simp (str_append-nil, nil-append)
  ]
]
text_of-append_or_merge block (x ∷ y ∷ ys) = elim (Bool-cases (is_text x.type)) [
  | inl e ↦ rw (e, text_of-append_or_merge block (y ∷ ys), str_append_assoc)
  | inr e ↦ rw e (text_of-append_or_merge block (y ∷ ys))
]

text_of-append :
    (bs : List ContentBlock) (block : ContentBlock)
    → text_of (bs ++ block ∷ []) ≡ str_append (text_of bs) (text_of (block ∷ []))
text_of-append [] block = sym (nil-append _)
text_of-append (b ∷ bs) block = elim (Bool-cases (is_text b.type)) [
  | inl i ↦ rw (i, text_of-append bs block, str_append_assoc) refl
  | inr i ↦ rw i (text_of-append bs block)
]

text_of-add_credentials :
    (c : StreamChunk Error) (a : Accumulator)
    → text_of (add_credentials c a).content ≡ text_of a.content
unfolding add_credentials
text_of-add_credentials c a = elim (Bool-cases (is_empty c.encrypted_content)) [
  | inl e ↦ rw e refl
  | inr e ↦ rw e (text_of-append_or_merge _ a.content ∙ str_append-nil _)
]

one_text : (b : ContentBlock) → text_of (b ∷ []) ≡ block_text (some b)
one_text b = elim (Bool-cases (is_text b.type)) [
  | inl i ↦ rw (i, str_append-nil) refl
  | inr i ↦ rw i refl
]

with_input-text : (b : ContentBlock) → block_text (some (with_input b)) ≡ block_text (some b)
with_input-text b = elim (Bool-cases (is_empty b.input)) [ inl e ↦ rw e refl | inr e ↦ rw e refl ]

module _ (std : Std) where
  keep_call-text :
      (o : Option Error) (c : ContentBlock) (a : Accumulator)
      → (keep_call std o c a).1 ≡ none
      → text_of (keep_call std o c a).0.content
        ≡ str_append (text_of a.content) (block_text (some c))
  keep_call-text none c a h =
      text_of-append a.content c ∙ ap (str_append (text_of a.content)) (one_text c)
  keep_call-text (some e) c a h = ground (arith)

  add_call-text :
      (o : Option ContentBlock) (a : Accumulator)
      → (add_call std o a).1 ≡ none
      → text_of (add_call std o a).0.content ≡ str_append (text_of a.content) (block_text o)
  unfolding add_call
  add_call-text none a h = ground (arith)
  add_call-text (some c) a h =
      keep_call-text (validate_content_block std (with_input c)) (with_input c) a h
      ∙ ap (str_append (text_of a.content)) (with_input-text c)

  add_body-text :
      (t : StreamType) (c : StreamChunk Error) (a : Accumulator)
      → (add_body std t c a).1 ≡ none
      → text_of (add_body std t c a).0.content ≡ str_append (text_of a.content) (type_text t c)
  unfolding add_body
  add_body-text StreamType.text c a h =
      text_of-append_or_merge (record (zero_block ContentType.text) { text = c.text }) a.content
      ∙ ap (str_append (text_of a.content)) (str_append-nil c.text)
  add_body-text StreamType.thinking c a h = text_of-append_or_merge _ a.content
  add_body-text StreamType.tool_call c a h = add_call-text c.tool_call a h
  add_body-text StreamType.done c a h = sym (str_append-nil _)
  add_body-text StreamType.error c a h = sym (str_append-nil _)
  add_body-text (StreamType.other_stream s) c a h = ground (arith)

  add_unless-text :
      (o : Option Error) (c : StreamChunk Error) (a : Accumulator)
      → (add_unless std o c a).1 ≡ none
      → text_of (add_unless std o c a).0.content ≡ str_append (text_of a.content) (chunk_text c)
  unfolding add_unless
  add_unless-text none c a h =
      add_body-text c.type c (add_credentials c a) h
      ∙ ap (λ s. str_append s (chunk_text c)) (text_of-add_credentials c a)
  add_unless-text (some e) c a h = ground (arith)

  -- A chunk that the accumulator accepts adds its text, and nothing else, at the end of the text
  -- of the message.
  pub add-text :
      (c : StreamChunk Error) (a : Accumulator)
      → (add std c a).1 ≡ none
      → text_of (add std c a).0.content ≡ str_append (text_of a.content) (chunk_text c)
  unfolding add
  add-text c a h = add_unless-text c.err c a h
