-- ===== src/Metering.antt =====
-- crates/gateway-core/src/event.rs and metering.rs: the canonical events and the token meter. The
-- sum of characters wraps at 64 bits as a release build's does. `report`, whose relative error is a
-- signed float, and its text are left out.
pub mod Totals
use Prim.Native.String.{count}
use smallgateway.Prelude.{ℕ, ◌+◌, ◌%◌, ◌^◌, String, Option, none, some}
use smallgateway.Float.{of_u64, ◌/f◌, literal, ceil_u64}

pub data Event : Type 0 where
  message_start : Option String → Option String → Event
  content_delta : ℕ → String → Event
  tool_call_delta : ℕ → Option String → Option String → String → Event
  usage_delta : Option ℕ → Option ℕ → Event
  message_end : Option String → Event
  error : String → String → Event

pub record Meter : Type 0 where
  pub output_chars : ℕ
  pub authoritative_input : Option ℕ
  pub authoritative_output : Option ℕ

abbrev pub new : Meter
new = record { output_chars = 0; authoritative_input = none; authoritative_output = none }

abbrev pub newer : Option ℕ → Option ℕ → Option ℕ
newer none held = held
newer (some n) held = some n

abbrev pub more_chars : Meter → String → Meter
more_chars m text = record m { output_chars = (m.output_chars + count text) % 2 ^ 64 }

unfoldable pub observe : Meter → Event → Meter
observe m (content_delta index text) = more_chars m text
observe m (tool_call_delta index id name arguments_delta) = more_chars m arguments_delta
observe m (usage_delta input_tokens output_tokens) = record m {
  authoritative_input = newer input_tokens m.authoritative_input;
  authoritative_output = newer output_tokens m.authoritative_output;
}
observe m _ = m

unfoldable pub estimated_output_tokens : Meter → ℕ
estimated_output_tokens m = ceil_u64 (of_u64 m.output_chars /f literal 4 1)
