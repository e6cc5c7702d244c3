-- ===== src/Sse.antt =====
-- crates/gateway-core/src/sse.rs: the incremental parser of server-sent events. Bytes are numbers.
-- `String::from_utf8_lossy` is an argument: a block is parsed at the level of its text. The field
-- `data` is `content` here.
pub mod Chunks
use Prim.Native.String.{◌++◌ as append}
use smallgateway.Prelude.{
  ℕ, zero, suc, String, Bool, false, ◌&&◌, Option, none, some, List, [], ◌∷◌, ◌++◌, ◌==◌,
  if◌then◌else◌, unwrap_or, length, strip_prefix, trim, split_lines,
}

pub record SseEvent : Type 0 where
  pub event : Option String
  pub content : String

pub record SseParser : Type 0 where
  pub buf : List ℕ

abbrev pub new : SseParser
new = record { buf = [] }

unfoldable pub pending_bytes : SseParser → ℕ
pending_bytes p = length p.buf

-- the fields that were read so far: the last event name and the data lines
pub record Fields : Type 0 where
  pub event : Option String
  pub content : List String

unfoldable pub parse_line : Fields → String → Fields
parse_line f line = elim (strip_prefix "data:" line) [
  | some rest ↦ record f { content = f.content ++ unwrap_or (strip_prefix " " rest) rest ∷ [] }
  | none ↦ elim (strip_prefix "event:" line) [
    | some rest ↦ record f { event = some (trim rest) }
    | none ↦ f
  ]
]

unfoldable pub parse_lines : Fields → List String → Fields
parse_lines f [] = f
parse_lines f (line ∷ lines) = parse_lines (parse_line f line) lines

-- `data.join("\n")`
unfoldable pub join_lines : List String → String
join_lines [] = ""
join_lines (l ∷ []) = l
join_lines (l ∷ m ∷ lines) = append l (append "\n" (join_lines (m ∷ lines)))

unfoldable pub event_of : Fields → Option SseEvent
event_of f = elim f.content [
  | [] ↦ elim f.event [ none ↦ none | some e ↦ some (record { event = some e; content = "" }) ]
  | l ∷ lines ↦ some (record { event = f.event; content = join_lines (l ∷ lines) })
]

unfoldable pub parse_text : String → Option SseEvent
parse_text text = event_of (parse_lines (record { event = none; content = [] }) (split_lines text))

-- the bytes without carriage returns
unfoldable pub without_cr : List ℕ → List ℕ
without_cr [] = []
without_cr (b ∷ bytes) = let rest = without_cr bytes in if b == 13 then rest else b ∷ rest

abbrev pub starts_line : List ℕ → Bool
starts_line [] = false
starts_line (b ∷ bytes) = b == 10

abbrev pub rest_of : List ℕ → List ℕ
rest_of [] = []
rest_of (b ∷ bytes) = bytes

abbrev pub onto_block : ℕ → Option (List ℕ × List ℕ) → Option (List ℕ × List ℕ)
onto_block b none = none
onto_block b (some (block, rest)) = some (b ∷ block, rest)

-- the block before the first blank line and what follows that line
unfoldable pub split_block : List ℕ → Option (List ℕ × List ℕ)
split_block [] = none
split_block (b ∷ bytes) =
    let later = split_block bytes in
    if b == 10 && starts_line bytes then some ([], rest_of bytes) else onto_block b later

abbrev pub push : Option SseEvent → List SseEvent → List SseEvent
push none events = events
push (some e) events = e ∷ events

module _ (from_utf8_lossy : List ℕ → String) where
  unfoldable pub parse_block : List ℕ → Option SseEvent
  parse_block block = parse_text (from_utf8_lossy block)

  -- the `while` loop; each round takes at least two bytes, so the length of the buffer is fuel
  unfoldable pub drain : ℕ → List ℕ → List ℕ × List SseEvent
  drain zero bytes = (bytes, [])
  drain (suc n) bytes = elim (split_block bytes) [
    | none ↦ (bytes, [])
    | some (block, rest) ↦ let later = drain n rest in (later.0, push (parse_block block) later.1)
  ]

  unfoldable pub feed : SseParser → List ℕ → SseParser × List SseEvent
  feed p bytes =
      let all = p.buf ++ without_cr bytes in
      let d = drain (length all) all in (record { buf = d.0 }, d.1)
