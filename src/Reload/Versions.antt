-- ===== src/Reload/Versions.antt =====
-- crates/gatewayd/src/reload.rs, `reload_from_text`: the versions along a sequence of reloads.
use smallgateway.Prelude.{
  ℕ, ◌+◌, ◌≤◌, ◌<◌, ◌≡◌, inl, inr, refl, String, true, false, Option, some, List, [], ◌∷◌, arith,
  str_eq, Bool-cases, Option-cases,
}
use smallgateway.Reload.{
  ReloadOutcome, swapped, no_op, rejected, Reloader, active, store, binds, reload_from_text,
  reload_all,
}
use smallgateway.Reload.Cases.{
  rendered, taken, reload-same, reload-invalid, reload-swapped, reload-refused,
}

-- The outcomes continue one another from an active version to another: each one names the version that
-- was active before it, and a swap goes to a version above.
abbrev pub Continues : ℕ → List ReloadOutcome → ℕ → Type 0
Continues v [] w = v ≡ w
Continues v (swapped old new ∷ outcomes) w = (old ≡ v) × (v < new) × Continues new outcomes w
Continues v (no_op a ∷ outcomes) w = (a ≡ v) × Continues v outcomes w
Continues v (rejected a ∷ outcomes) w = (a ≡ v) × Continues v outcomes w

-- no snapshot has a version above the last that was stamped
abbrev pub IsStamped : {C : Type 0} → Reloader C → Type 0
IsStamped r = r.shared.version ≤ r.renderer.next

module _ {C : Type 0} (from_yaml : String → Option C) (content_hash : String → String) where
  -- what one reload does to the versions
  abbrev Advances : Reloader C → Reloader C × ReloadOutcome → Type 0
  Advances r o =
      IsStamped o.0
      × ((outcomes : List ReloadOutcome) (w : ℕ)
          → Continues (active o.0) outcomes w
          → Continues (active r) (o.1 ∷ outcomes) w)

  reload_from_text-Advances :
      (r : Reloader C) (text source : String)
      → IsStamped r
      → Advances r (reload_from_text from_yaml content_hash r text source)
  reload_from_text-Advances r text source v =
      elim (Bool-cases (str_eq (content_hash text) r.shared.content_hash)) [
        | inl same ↦
            rw (reload-same from_yaml content_hash r text source same)
              (v, λ outcomes w rest. (refl, rest))
        | inr other ↦ elim (Option-cases (from_yaml text)) [
          | inl bad ↦
              rw (reload-invalid from_yaml content_hash r text source other bad)
                (v, λ outcomes w rest. (refl, rest))
          | inr (config, good) ↦
              elim (Bool-cases (
                binds r.swap_hook (active r)
                  (rendered from_yaml content_hash r text source config))) [
                    | inl bound ↦
                        rw
                          (reload-swapped from_yaml content_hash r text source config other good
                            bound)
                          (unfold store in
                            (omega arith, λ outcomes w rest. (refl, omega arith, rest)))
                    | inr refused ↦
                        rw
                          (reload-refused from_yaml content_hash r text source config other good
                            refused)
                          (omega arith, λ outcomes w rest. (refl, rest))
                  ]
        ]
      ]

  -- Along any sequence of reloads the outcomes continue one another from the version that is active at
  -- the start to the one that is active at the end: each outcome names the version that was active
  -- before it, and each swap goes to a version above. No version is active that was not stamped.
  pub reload_all-Continues :
      (r : Reloader C) (texts : List (String × String))
      → IsStamped r
      → let after = reload_all from_yaml content_hash r texts in
        IsStamped after.0 × Continues (active r) after.1 (active after.0)
  unfolding reload_all
  reload_all-Continues r [] v = (v, refl)
  reload_all-Continues r ((text, source) ∷ texts) v =
      let one = reload_from_text-Advances r text source v in
      let next = (reload_from_text from_yaml content_hash r text source).0 in
      let rest = reload_all-Continues next texts one.0 in
      (rest.0, one.1 (reload_all from_yaml content_hash next texts).1 _ rest.1)

  -- A valid text whose modules the hook refuses leaves the active snapshot, yet takes a version: where
  -- the active version was the last one stamped, the next text that binds is swapped in with a gap.
  pub refused_takes_version :
      (r : Reloader C) (refused_text text source : String) (refused config : C)
      → r.renderer.next ≡ active r
      → str_eq (content_hash refused_text) r.shared.content_hash ≡ false
      → str_eq (content_hash text) r.shared.content_hash ≡ false
      → from_yaml refused_text ≡ some refused
      → from_yaml text ≡ some config
      → binds r.swap_hook (active r) (rendered from_yaml content_hash r refused_text source refused)
        ≡ false
      → binds r.swap_hook
          (active r)
          (rendered from_yaml content_hash (taken from_yaml content_hash r) text source config)
        ≡ true
      → (reload_all from_yaml content_hash r ((refused_text, source) ∷ (text, source) ∷ [])).1
        ≡ rejected (active r) ∷ swapped (active r) (active r + 2) ∷ []
  unfolding reload_all
  refused_takes_version r refused_text text source refused config h a b ya yb no_bind does_bind =
      rw
        (
          reload-refused from_yaml content_hash r refused_text source refused a ya no_bind,
          reload-swapped from_yaml content_hash (taken from_yaml content_hash r) text source config
              b yb does_bind,
        )
        (ground (arith, h))
