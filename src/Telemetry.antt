-- ===== src/Telemetry.antt =====
-- crates/gatewayctl/src/telemetry.rs: what the nodes say of their health, gathered for a canary's
-- analysis. A latency is a finite `f64` that is not negative, and reading one is the argument `parse_f64`.
use Prim.Native.Char.{code}
use Prim.Native.String as Text
use smallgateway.Prelude.{
  ℕ, ◌+◌, ◌*◌, ◌-◌, String, Bool, ◌&&◌, not, Option, none, some, List, [], ◌∷◌, ◌++◌, min, length,
  leb, ltb, ◌==◌, if◌then◌else◌, unwrap_or, str_eq, is_empty, is_whitespace, is_some, strip_prefix,
  trim,
}
use smallgateway.Prelude.Order.{text_ord}
use smallgateway.Prelude.BTree.{BTreeMap, get, insert, remove}
use smallgateway.Float.{F64, u64_max}

pub record NodeWindow : Type 0 where
  pub requests : ℕ
  pub errors : ℕ
  pub latencies_ms : List F64

abbrev pub max_latency_samples : ℕ
max_latency_samples = 512

pub record ParsedHealth : Type 0 where
  pub healthy : Bool
  pub requests : Option ℕ
  pub errors : Option ℕ
  pub p99_ms : Option F64

abbrev pub no_window : NodeWindow
no_window = record { requests = 0; errors = 0; latencies_ms = [] }

-- `split_whitespace`, where `word` holds the characters since the last white space
abbrev pub onto_words : String → List String → List String
onto_words word words = if is_empty word then words else word ∷ words

unfoldable pub words_of : String → String × List String
words_of Text.[] = (Text.[], [])
words_of (Text.◌∷◌ c s) =
    let rest = words_of s in
    if is_whitespace c then (Text.[], onto_words rest.0 rest.1) else (Text.◌∷◌ c rest.0, rest.1)

unfoldable pub split_whitespace : String → List String
split_whitespace s = onto_words (words_of s).0 (words_of s).1

-- `split_once('=')`
unfoldable pub split_once : String → Option (String × String)
split_once Text.[] = none
split_once (Text.◌∷◌ c s) =
    let rest = split_once s in
    if code c == 61
    then some (Text.[], s)
    else elim rest [ none ↦ none | some (k, v) ↦ some (Text.◌∷◌ c k, v) ]

-- `str::parse::<u64>`: digits after at most one plus sign, no more than 64 bits
unfoldable pub digits : Option ℕ → String → Option ℕ
digits value Text.[] = value
digits value (Text.◌∷◌ c s) =
    let next = unwrap_or value 0 * 10 + (code c - 48) in
    let rest = digits (some next) s in
    if leb 48 (code c) && leb (code c) 57 && leb next u64_max then rest else none

unfoldable pub parse_u64 : String → Option ℕ
parse_u64 Text.[] = none
parse_u64 (Text.◌∷◌ c s) = if code c == 43 then digits none s else digits none (Text.◌∷◌ c s)

-- `trim_end_matches("ms")`
unfoldable pub trim_ms : String → String
trim_ms Text.[] = Text.[]
trim_ms (Text.◌∷◌ c s) =
    let rest = trim_ms s in if str_eq (Text.◌∷◌ c rest) "ms" then Text.[] else Text.◌∷◌ c rest

module _ (parse_f64 : String → Option F64) where
  -- one token `k=v`
  unfoldable pub read_token : ParsedHealth → String → ParsedHealth
  read_token p tok = elim (split_once tok) [
    | none ↦ p
    | some (k, v) ↦
        if str_eq k "req"
        then record p { requests = parse_u64 v }
        else if str_eq k "requests"
        then record p { requests = parse_u64 v }
        else if str_eq k "err"
        then record p { errors = parse_u64 v }
        else if str_eq k "errors"
        then record p { errors = parse_u64 v }
        else if str_eq k "p99"
        then record p { p99_ms = parse_f64 (trim_ms v) }
        else if str_eq k "p99_ms"
        then record p { p99_ms = parse_f64 (trim_ms v) }
        else p
  ]

  unfoldable pub read_tokens : ParsedHealth → List String → ParsedHealth
  read_tokens p [] = p
  read_tokens p (tok ∷ tokens) = read_tokens (read_token p tok) tokens

  unfoldable pub parse_health : String → ParsedHealth
  parse_health health =
      let trimmed = trim health in
      read_tokens
        (record {
          healthy = not (is_some (strip_prefix "degraded" trimmed));
          requests = none;
          errors = none;
          p99_ms = none;
        })
        (split_whitespace trimmed)

abbrev pub FleetTelemetry : Type 0
FleetTelemetry = BTreeMap String NodeWindow

abbrev pub saturating_add : ℕ → ℕ → ℕ
saturating_add a b = min (a + b) u64_max

abbrev pub count : NodeWindow → ℕ → ℕ → NodeWindow
count w requests errors = record w {
  requests = saturating_add w.requests requests;
  errors = saturating_add w.errors errors;
}

-- the `match` on the counters of a health text
unfoldable pub count_health : NodeWindow → ParsedHealth → NodeWindow
count_health w p = elim p.requests [
  | some requests ↦ elim p.errors [
    | some errors ↦ count w requests errors
    | none ↦ if p.healthy then count w requests 0 else count w requests 1
  ]
  | none ↦ if p.healthy then w else count w 1 1
]

unfoldable pub sample_latency : NodeWindow → ParsedHealth → NodeWindow
sample_latency w p = elim p.p99_ms [
  | none ↦ w
  | some p99 ↦
      if ltb (length w.latencies_ms) max_latency_samples
      then record w { latencies_ms = w.latencies_ms ++ p99 ∷ [] }
      else w
]

unfoldable pub window_for : FleetTelemetry → String → NodeWindow
window_for t node_id = unwrap_or (get node_id t) no_window

unfoldable pub record_health :
    (String → Option F64) → FleetTelemetry → String → String → FleetTelemetry
record_health parse_f64 t node_id health =
    let parsed = parse_health parse_f64 health in
    insert node_id (sample_latency (count_health (window_for t node_id) parsed) parsed) t

unfoldable pub record_nack : FleetTelemetry → String → FleetTelemetry
record_nack t node_id = insert node_id (count (window_for t node_id) 1 1) t

unfoldable pub set_window : FleetTelemetry → String → NodeWindow → FleetTelemetry
set_window t node_id window = insert node_id window t

unfoldable pub reset : FleetTelemetry → String → FleetTelemetry
reset t node_id = remove node_id t

unfoldable pub reset_many : FleetTelemetry → List String → FleetTelemetry
reset_many t [] = t
reset_many t (id ∷ ids) = reset_many (remove id t) ids
