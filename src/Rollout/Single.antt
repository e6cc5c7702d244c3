-- ===== src/Rollout/Single.antt =====
-- crates/gatewayctl/src/rollout.rs: the paths that push one render to every connected node. The exchange
-- with a node is the argument `answer`, and `content_hash` and `from_utf8_lossy` are arguments. A hash that
-- is advertised is sliced by characters, as it is in hexadecimal digits; logging is left out.
pub mod Tampered
use Prim.Native.String as Text
use smallgateway.Prelude.{ℕ, zero, suc, String, List, [], ◌∷◌, ◌++◌, max}
use smallgateway.Fleet.{
  Fleet, Rendered, WaveOutcome, AckResult, begin_wave, drop_guard, next_version_for, conclude_wave,
}

-- what the nodes answered, and the highest version
pub record Answered : Type 0 where
  pub fleet : Fleet
  pub results : List (String × AckResult)
  pub wave_version : ℕ

abbrev pub append_text : String → String → String
append_text Text.[] t = t
append_text (Text.◌∷◌ c s) t = Text.◌∷◌ c (append_text s t)

abbrev pub take_text : ℕ → String → String
take_text zero s = Text.[]
take_text (suc n) Text.[] = Text.[]
take_text (suc n) (Text.◌∷◌ c s) = Text.◌∷◌ c (take_text n s)

module _ (answer : String → ℕ → Rendered → AckResult) where
  unfoldable pub push_same : Rendered → Answered → String → Answered
  push_same rendered a id =
      let next = next_version_for a.fleet id rendered.render_hash in
      record {
        fleet = next.0;
        results = a.results ++ (id, answer id next.1 rendered) ∷ [];
        wave_version = max a.wave_version next.1;
      }

  unfoldable pub push_same_all : Rendered → Answered → List String → Answered
  push_same_all rendered a [] = a
  push_same_all rendered a (id ∷ ids) = push_same_all rendered (push_same rendered a id) ids

  -- the body of the wave, under the guard; `sessions` are the ids of the nodes that have a stream
  unfoldable pub adjudicate : List String → Fleet → Rendered → Fleet × WaveOutcome
  adjudicate [] f rendered = conclude_wave f rendered.render_hash f.committed_version []
  adjudicate (id ∷ ids) f rendered =
      let start : Answered = record {
        fleet = f;
        results = [];
        wave_version = f.committed_version;
      } in
      let a = push_same_all rendered start (id ∷ ids) in
      conclude_wave a.fleet rendered.render_hash a.wave_version a.results

  unfoldable pub run_wave : List String → Fleet → Rendered → Fleet × WaveOutcome
  run_wave sessions f rendered =
      let concluded = adjudicate sessions (begin_wave f) rendered in
      (drop_guard concluded.0, concluded.1)

  unfoldable pub roll_out : List String → Fleet → Fleet × WaveOutcome
  roll_out sessions f = run_wave sessions f f.applied

  unfoldable pub roll_out_tampered : List String → Fleet → String → List ℕ → Fleet × WaveOutcome
  roll_out_tampered sessions f advertised_hash bytes = run_wave sessions f (record {
    config_bytes = bytes;
    render_hash = advertised_hash;
    source_commit = append_text "tampered-" (take_text 16 advertised_hash);
  })

  module _ (content_hash : String → String) (from_utf8_lossy : List ℕ → String) where
    unfoldable pub roll_out_raw : List String → Fleet → List ℕ → Fleet × WaveOutcome
    roll_out_raw sessions f bytes =
        let hash = content_hash (from_utf8_lossy bytes) in
        run_wave sessions f (record {
          config_bytes = bytes;
          render_hash = hash;
          source_commit = append_text "raw-" (take_text 16 hash);
        })
