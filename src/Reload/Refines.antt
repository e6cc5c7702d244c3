-- ===== src/Reload/Refines.antt =====
-- crates/gatewayd/src/reload.rs, `reload_from_text`: what a data plane serves, without versions,
-- renderer and cell.
use mathlib.Core.Path.{subst}
use smallgateway.Prelude.{
  arith, ℕ, ◌+◌, ◌≡◌, inl, inr, refl, ap, sym, ◌∙◌, String, Bool, false, Option, none, some, List,
  [], ◌∷◌, map, if◌then◌else◌, str_eq, Bool-cases, Option-cases,
}
use smallgateway.Reload.{
  Snapshot, ReloadOutcome, swapped, no_op, rejected, Reloader, active, store, binds,
  reload_from_text, reload_all,
}
use smallgateway.Reload.Cases.{
  rendered, taken, reload-same, reload-invalid, reload-swapped, reload-refused,
}

pub data Judgment : Type 0 where
  kept adopted refused : Judgment

abbrev pub verdict_of : ReloadOutcome → Judgment
verdict_of (swapped old new) = adopted
verdict_of (no_op a) = kept
verdict_of (rejected a) = refused

-- the text that is served after a verdict on another
abbrev pub after : Judgment → String → String → String
after adopted serving text = text
after kept serving text = serving
after refused serving text = serving

module _ {C : Type 0} (from_yaml : String → Option C) (content_hash : String → String)
    (modules : C → Bool) where
  -- the text means a configuration whose modules bind
  abbrev pub is_good : String → Bool
  is_good text = elim (from_yaml text) [ none ↦ false | some config ↦ modules config ]

  abbrev pub judge : String → String → Judgment
  judge serving text =
      if str_eq (content_hash text) (content_hash serving)
      then kept
      else if is_good text
      then adopted
      else refused

  abbrev pub serve_one : String → String → String
  serve_one serving text = after (judge serving text) serving text

  -- the abstract data plane: a text that is served, and a verdict on each text that comes
  abbrev pub serve : String → List (String × String) → String × List Judgment
  serve serving [] = (serving, [])
  serve serving ((text, source) ∷ texts) =
      let rest = serve (serve_one serving text) texts in (rest.0, judge serving text ∷ rest.1)

  -- the reloader serves this text, and its hook says of a snapshot what its modules say
  abbrev pub Serves : Reloader C → String → Type 0
  Serves r text =
      (from_yaml text ≡ some r.shared.config)
      × (r.shared.content_hash ≡ content_hash text)
      × ((version : ℕ) (s : Snapshot C) → binds r.swap_hook version s ≡ modules s.config)

  abbrev Simulates : String → String → Reloader C × ReloadOutcome → Type 0
  Simulates serving text o =
      Serves o.0 (serve_one serving text) × (verdict_of o.1 ≡ judge serving text)

  simulated :
      (v : Judgment) (serving text : String) (o : Reloader C × ReloadOutcome)
      → judge serving text ≡ v
      → Serves o.0 (after v serving text)
      → verdict_of o.1 ≡ v
      → Simulates serving text o
  simulated v serving text o j s h =
      subst (λ w. Serves o.0 (after w serving text) × (verdict_of o.1 ≡ w)) (sym j) (s, h)

  reload-Simulates :
      (r : Reloader C) (serving text source : String)
      → Serves r serving
      → Simulates serving text (reload_from_text from_yaml content_hash r text source)
  unfolding store
  reload-Simulates r serving text source s =
      elim (Bool-cases (str_eq (content_hash text) (content_hash serving))) [
        | inl same ↦
            rw (reload-same from_yaml content_hash r text source (rw s.1 same))
              (simulated kept serving text (r, no_op (active r)) (rw same refl) s refl)
        | inr other ↦ elim (Option-cases (from_yaml text)) [
          | inl bad ↦
              rw (reload-invalid from_yaml content_hash r text source (rw s.1 other) bad)
                (simulated refused serving text (r, rejected (active r)) (ground arith) s refl)
          | inr (config, good) ↦
              let verdict = s.2 (active r) (rendered from_yaml content_hash r text source config) in
              elim (Bool-cases (modules config)) [
                | inl bound ↦
                    rw
                      (reload-swapped from_yaml content_hash r text source config (rw s.1 other)
                        good (verdict ∙ bound))
                      (simulated adopted serving text
                        (
                          store (taken from_yaml content_hash r)
                              (rendered from_yaml content_hash r text source config),
                          swapped (active r) (r.renderer.next + 1),
                        )
                        (ground arith) (good, refl, s.2) refl)
                | inr no_bind ↦
                    rw
                      (reload-refused from_yaml content_hash r text source config (rw s.1 other)
                        good (verdict ∙ no_bind))
                      (simulated refused serving text
                        (taken from_yaml content_hash r, rejected (active r)) (ground arith) s refl)
              ]
        ]
      ]

  -- A data plane that serves a text goes through any sequence of texts as the abstract one does: after
  -- them it serves the configuration and the hash of the text that the abstract one serves, and its
  -- outcomes are the abstract verdicts. So a text that is invalid, or whose modules do not bind, never
  -- changes what is served, and any other one replaces it unless its hash is the same.
  pub reload_all-Serves :
      (r : Reloader C) (serving : String) (texts : List (String × String))
      → Serves r serving
      → let after = reload_all from_yaml content_hash r texts in
        Serves after.0 (serve serving texts).0 × (map verdict_of after.1 ≡ (serve serving texts).1)
  unfolding reload_all
  reload_all-Serves r serving [] s = (s, refl)
  reload_all-Serves r serving ((text, source) ∷ texts) s =
      let one = reload-Simulates r serving text source s in
      let next = (reload_from_text from_yaml content_hash r text source).0 in
      let rest = reload_all-Serves next (serve_one serving text) texts one.0 in
      (
        rest.0,
        ap (λ v. v ∷ map verdict_of (reload_all from_yaml content_hash next texts).1) one.1
            ∙ ap (λ vs. judge serving text ∷ vs) rest.1,
      )
