-- ===== src/Core/Loop/Streaming.antt =====
-- internal/core/loop.go, consumeStream: what a stream that ends well has put into the message.
use text.Mathlib.TextLemmas.{append-nil as str_append-nil, append_assoc as str_append_assoc}
use marx_agent.Prelude.{◌≡◌, sym, String, none, List, [], ◌∷◌, arith, str_append}
use marx_agent.Core.Session.{Session}
use marx_agent.Core.Accumulator.{Accumulator, add}
use marx_agent.Core.Accumulator.Text.{text_of, chunk_text, add-text}
use marx_agent.Core.Emit.{Agent, Arrival, chunk, cancelled, emit_partial}
use marx_agent.Core.Loop.{consume_stream}

-- The text of all chunks, in the order of their arrival.
abbrev pub stream_text : List Arrival → String
stream_text [] = ""
stream_text (cancelled e ∷ arrivals) = ""
stream_text (chunk c ∷ arrivals) = str_append (chunk_text c) (stream_text arrivals)

module _ {W : Type 0} (a : Agent W) where
  -- When a stream is consumed to its end without an error, the text of the accumulated message is
  -- the text that was there before followed by the texts of all chunks in the order of their
  -- arrival.
  pub consume_stream-text :
      (id : String) (arrivals : List Arrival) (acc : Accumulator) (s : Session W)
      → (consume_stream a id arrivals acc s).2 ≡ none
      → text_of (consume_stream a id arrivals acc s).1.content
        ≡ str_append (text_of acc.content) (stream_text arrivals)
  unfolding consume_stream
  consume_stream-text id [] acc s h = sym (str_append-nil _)
  consume_stream-text id (cancelled e ∷ arrivals) acc s h = ground (arith)
  consume_stream-text id (chunk c ∷ arrivals) acc s h =
      let acc' = (add a.std c acc).0 in
      let s' = (emit_partial a id c s).0 in
      ground (
        arith,
        add-text a.std c acc,
        consume_stream-text id arrivals acc' s',
        str_append_assoc (text_of acc.content) (chunk_text c) (stream_text arrivals),
      )
