-- ===== src/Frames.antt =====
-- crates/gateway-core/src/eventstream.rs: the binary frames of AWS event streams. A byte is a
-- number below 256, a `HashMap` is the map of its entries, and an error stands as its kind.
pub mod Bytes
pub mod RoundTrip
use smallgateway.Prelude.{
  ℕ, zero, suc, ◌+◌, ◌-◌, ◌*◌, ◌/◌, ◌%◌, String, not, List, [], ◌∷◌, ◌++◌, length, ltb, ◌==◌,
  if◌then◌else◌, Result, err, ok, ◌>>=◌,
}
use smallgateway.Prelude.Order.{text_ord}
use smallgateway.Prelude.BTree.{BTreeMap, insert}

pub record Frame : Type 0 where
  pub headers : BTreeMap String String
  pub payload : List ℕ

pub record FrameDecoder : Type 0 where
  pub buf : List ℕ

pub data FrameError : Type 0 where
  too_short : ℕ → FrameError
  prelude_crc_mismatch message_crc_mismatch headers_overrun truncated_header : FrameError
  unsupported_type : ℕ → FrameError
  truncated_value : FrameError

-- `&bytes[..n]` and `&bytes[n..]`
abbrev pub take : ℕ → List ℕ → List ℕ
take zero bytes = []
take (suc n) [] = []
take (suc n) (b ∷ bytes) = b ∷ take n bytes

abbrev pub drop : ℕ → List ℕ → List ℕ
drop zero bytes = bytes
drop (suc n) [] = []
drop (suc n) (b ∷ bytes) = drop n bytes

-- `&bytes[from..to]`
abbrev pub slice : ℕ → ℕ → List ℕ → List ℕ
slice from to bytes = take (to - from) (drop from bytes)

-- `u16::to_be_bytes` and `u32::to_be_bytes` after `as u16` and `as u32`
abbrev pub be16 : ℕ → List ℕ
be16 n = n / 256 % 256 ∷ n % 256 ∷ []

abbrev pub be32 : ℕ → List ℕ
be32 n = n / 16777216 % 256 ∷ n / 65536 % 256 ∷ n / 256 % 256 ∷ n % 256 ∷ []

-- `from_be_bytes`
abbrev pub from_be : ℕ → List ℕ → ℕ
from_be n [] = n
from_be n (b ∷ bytes) = from_be (n * 256 + b) bytes

abbrev pub head_or : ℕ → List ℕ → ℕ
head_or d [] = d
head_or d (b ∷ bytes) = b

module _ (hash : List ℕ → ℕ) (from_utf8_lossy : List ℕ → String) (as_bytes : String → List ℕ) where
  -- the bytes of the headers from `pos` on, up to `headers_end`; the fuel is their number
  unfoldable pub decode_headers :
      ℕ → List ℕ → BTreeMap String String → Result FrameError (BTreeMap String String)
  decode_headers _ [] headers = ok headers
  decode_headers zero (name_len ∷ rest) headers = ok headers
  decode_headers (suc fuel) (name_len ∷ rest) headers =
      let name = from_utf8_lossy (take name_len rest) in
      let typed = drop name_len rest in
      let value_type = head_or 0 typed in
      let sized = drop 1 typed in
      let value_len = from_be 0 (take 2 sized) in
      let after = drop 2 sized in
      let value = from_utf8_lossy (take value_len after) in
      let more = decode_headers fuel (drop value_len after) (insert name value headers) in
      if ltb (length rest) (name_len + 3)
      then err truncated_header
      else if not (value_type == 7)
      then err (unsupported_type value_type)
      else if ltb (length after) value_len
      then err truncated_value
      else more

  unfoldable pub decode_frame : List ℕ → Result FrameError Frame
  decode_frame frame =
      let headers_len = from_be 0 (slice 4 8 frame) in
      let prelude_crc = from_be 0 (slice 8 12 frame) in
      let msg_crc_offset = length frame - 4 in
      let message_crc = from_be 0 (drop msg_crc_offset frame) in
      let headers_end = 12 + headers_len in
      let header_bytes = slice 12 headers_end frame in
      let payload = slice headers_end msg_crc_offset frame in
      if not (hash (take 8 frame) == prelude_crc)
      then err prelude_crc_mismatch
      else if not (hash (take msg_crc_offset frame) == message_crc)
      then err message_crc_mismatch
      else if ltb msg_crc_offset headers_end
      then err headers_overrun
      else (decode_headers (length header_bytes) header_bytes [] >>= λ headers.
          ok (record { headers = headers; payload = payload }))

  unfoldable pub encode_headers : List (String × String) → List ℕ
  encode_headers [] = []
  encode_headers ((name, value) ∷ headers) =
      length (as_bytes name) % 256
      ∷ (as_bytes name
          ++ (7 ∷ (be16 (length (as_bytes value)) ++ (as_bytes value ++ encode_headers headers))))

  unfoldable pub encode_frame : List (String × String) → List ℕ → List ℕ
  encode_frame headers payload =
      let header_bytes = encode_headers headers in
      let total = 12 + length header_bytes + length payload + 4 in
      let prelude = be32 total ++ be32 (length header_bytes) in
      let frame = prelude ++ (be32 (hash prelude) ++ (header_bytes ++ payload)) in
      frame ++ be32 (hash frame)

  -- the loop of `feed`, where each round but the last takes at least 16 bytes
  unfoldable pub drain_frames : ℕ → List ℕ → List ℕ × Result FrameError (List Frame)
  drain_frames zero buf = (buf, ok [])
  drain_frames (suc fuel) buf =
      let total = from_be 0 (take 4 buf) in
      let frame = decode_frame (take total buf) in
      let rest = drain_frames fuel (drop total buf) in
      if ltb (length buf) 12
      then (buf, ok [])
      else if ltb total 16
      then (buf, err (too_short total))
      else if ltb (length buf) total
      then (buf, ok [])
      else elim frame [
        | err e ↦ (drop total buf, err e)
        | ok f ↦ (rest.0, rest.1 >>= λ frames. ok (f ∷ frames))
      ]

  unfoldable pub feed : FrameDecoder → List ℕ → FrameDecoder × Result FrameError (List Frame)
  feed d bytes =
      let all = d.buf ++ bytes in
      let r = drain_frames (length all) all in (record { buf = r.0 }, r.1)

abbrev pub new : FrameDecoder
new = record { buf = [] }

abbrev pub pending_bytes : FrameDecoder → ℕ
pending_bytes d = length d.buf
