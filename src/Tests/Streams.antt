-- ===== src/Tests/Streams.antt =====
-- Event streams at concrete inputs.
use smallgateway.Prelude.{
  ℕ, ◌≡◌, refl, strip_prefix, split_lines, trim, trim_start, trim_end, String, none, some, List, [],
  ◌∷◌,
}
use smallgateway.Metering.{Event, content_delta, usage_delta}
use smallgateway.Sse
use smallgateway.Sse.{feed, parse_text, split_block, parse_lines, parse_line, event_of, join_lines}
use smallgateway.Sse.Chunks.{feed_all, concat, feed_all-concat}

-- stands for the decoding of bytes
abbrev lossy : List ℕ → String
lossy bytes = "data: x"

-- "a\n", "\nb", with the blank line cut in two
abbrev chunks : List (List ℕ)
chunks = (97 ∷ 10 ∷ []) ∷ (13 ∷ 10 ∷ 98 ∷ []) ∷ []

feed_all-concat_example :
    (feed_all lossy Sse.new chunks ≡ feed lossy Sse.new (concat chunks))
    × (split_block (feed_all lossy Sse.new chunks).0.buf ≡ none)
feed_all-concat_example = feed_all-concat lossy Sse.new chunks (unfold split_block in refl)

abbrev events : List Event
events = usage_delta (some 12) none ∷ content_delta 0 "hello" ∷ usage_delta none (some 3) ∷ []

named_event :
    parse_text "event: ping\n: comment\ndata: a\ndata:b"
    ≡ some (record { event = some "ping"; content = "a\nb" })
unfolding parse_text parse_lines parse_line event_of join_lines strip_prefix split_lines trim
    trim_start trim_end
named_event = refl

no_fields : parse_text ": only a comment" ≡ none
unfolding parse_text parse_lines parse_line event_of strip_prefix split_lines
no_fields = refl
