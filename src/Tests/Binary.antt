-- ===== src/Tests/Binary.antt =====
-- Binary frames at concrete inputs.
use smallgateway.Prelude.{
  ℕ, ◌%◌, ◌≡◌, refl, String, List, [], ◌∷◌, ◌==◌, arith, length, if◌then◌else◌, str_eq, ok,
}
use smallgateway.Prelude.Order.{text_ord}
use smallgateway.Prelude.BTree.{insert, insert_all}
use smallgateway.Frames
use smallgateway.Frames.{
  feed, drain_frames, decode_frame, decode_headers, encode_frame, encode_headers, take, drop,
}
use smallgateway.Frames.RoundTrip.{decode-encode_frame}

-- what stands for the bytes of a text, and for the text of bytes
abbrev as_bytes : String → List ℕ
as_bytes s = if str_eq s ":event-type" then 58 ∷ 101 ∷ [] else 109 ∷ []

abbrev text_of : List ℕ → String
text_of bytes = if length bytes == 2 then ":event-type" else "metadata"

abbrev checksum : List ℕ → ℕ
checksum bytes = length bytes % 4294967296

abbrev event_header : List (String × String)
event_header = (":event-type", "metadata") ∷ []

decode-encode_frame_example :
    decode_frame checksum text_of as_bytes
      (encode_frame checksum text_of as_bytes event_header (1 ∷ 2 ∷ []))
    ≡ ok (record { headers = insert_all [] event_header; payload = 1 ∷ 2 ∷ [] })
decode-encode_frame_example =
    decode-encode_frame checksum text_of as_bytes (λ bytes. ground arith) event_header (1 ∷ 2 ∷ [])
      (((omega arith, omega arith), (refl, refl)), tt) (unfold encode_headers in omega arith)

frames_in_two_chunks :
    let bytes = encode_frame checksum text_of as_bytes event_header (1 ∷ 2 ∷ []) in
    let first = feed checksum text_of as_bytes Frames.new (take 9 bytes) in
    (first.1 ≡ ok [])
    × (Frames.pending_bytes first.0 ≡ 9)
    × ((feed checksum text_of as_bytes first.0 (drop 9 bytes)).1
        ≡ ok (record { headers = event_header; payload = 1 ∷ 2 ∷ [] } ∷ []))
unfolding feed drain_frames decode_frame decode_headers encode_frame encode_headers insert
frames_in_two_chunks = (refl, refl, refl)
