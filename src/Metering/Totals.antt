-- ===== src/Metering/Totals.antt =====
-- crates/gateway-core/src/metering.rs, `observe` over a stream of events.
use Prim.Native.String.{count}
use smallgateway.Prelude.{
  ℕ, ◌+◌, ◌%◌, ◌^◌, ◌≡◌, refl, ap, ◌∙◌, Option, none, some, List, [], ◌∷◌, arith,
}
use smallgateway.Metering.{
  Event, message_start, content_delta, tool_call_delta, usage_delta, message_end, error, Meter,
  newer, observe,
}

unfoldable pub observe_all : Meter → List Event → Meter
observe_all m [] = m
observe_all m (e ∷ events) = observe_all (observe m e) events

-- the characters that an event carries
abbrev pub chars : Event → ℕ
chars (content_delta index text) = count text
chars (tool_call_delta index id name arguments_delta) = count arguments_delta
chars _ = 0

abbrev pub total_chars : List Event → ℕ
total_chars [] = 0
total_chars (e ∷ events) = chars e + total_chars events

abbrev pub usage_of : Event → Option ℕ × Option ℕ
usage_of (usage_delta input_tokens output_tokens) = (input_tokens, output_tokens)
usage_of _ = (none, none)

-- the last count of input tokens, and of output tokens, that the events report
abbrev pub last_input : List Event → Option ℕ
last_input [] = none
last_input (e ∷ events) = newer (last_input events) (usage_of e).0

abbrev pub last_output : List Event → Option ℕ
last_output [] = none
last_output (e ∷ events) = newer (last_output events) (usage_of e).1

observe-step :
    (m : Meter) (e : Event)
    → ((observe m e).output_chars % 2 ^ 64 ≡ (m.output_chars + chars e) % 2 ^ 64)
      × ((observe m e).authoritative_input ≡ newer (usage_of e).0 m.authoritative_input)
      × ((observe m e).authoritative_output ≡ newer (usage_of e).1 m.authoritative_output)
unfolding observe
observe-step m (message_start id model) = (omega arith, refl, refl)
observe-step m (content_delta index text) = (omega arith, refl, refl)
observe-step m (tool_call_delta index id name arguments_delta) = (omega arith, refl, refl)
observe-step m (usage_delta input_tokens output_tokens) = (omega arith, refl, refl)
observe-step m (message_end reason) = (omega arith, refl, refl)
observe-step m (error code message) = (omega arith, refl, refl)

newer_assoc : (a b c : Option ℕ) → newer a (newer b c) ≡ newer (newer a b) c
newer_assoc none b c = refl
newer_assoc (some n) b c = refl

mod-add :
    (a x y t z : ℕ)
    → a % 2 ^ 64 ≡ (x + y) % 2 ^ 64
    → z % 2 ^ 64 ≡ (a + t) % 2 ^ 64
    → z % 2 ^ 64 ≡ (x + (y + t)) % 2 ^ 64
mod-add a x y t z h k = omega arith

-- A meter that observed a stream holds, besides what it held before, the number of characters of
-- all text and tool deltas, modulo 2 ^ 64, and of each kind of usage the last count reported.
pub observe_all-totals :
    (m : Meter) (events : List Event)
    → ((observe_all m events).output_chars % 2 ^ 64
        ≡ (m.output_chars + total_chars events) % 2 ^ 64)
      × ((observe_all m events).authoritative_input
          ≡ newer (last_input events) m.authoritative_input)
      × ((observe_all m events).authoritative_output
          ≡ newer (last_output events) m.authoritative_output)
unfolding observe_all observe
observe_all-totals m [] = (omega arith, refl, refl)
observe_all-totals m (e ∷ events) =
    let step = observe-step m e in
    let rest = observe_all-totals (observe m e) events in
    (
      mod-add (observe m e).output_chars m.output_chars (chars e) (total_chars events)
          (observe_all (observe m e) events).output_chars step.0 rest.0,
      rest.1
          ∙ ap (newer (last_input events)) step.1
          ∙ newer_assoc (last_input events) (usage_of e).0 m.authoritative_input,
      rest.2
          ∙ ap (newer (last_output events)) step.2
          ∙ newer_assoc (last_output events) (usage_of e).1 m.authoritative_output,
    )
