-- ===== src/Reload/Cases.antt =====
-- crates/gatewayd/src/reload.rs, `reload_from_text_locked`: its branches, as equations.
use smallgateway.Prelude.{
  ◌+◌, ◌≡◌, refl, String, true, false, Option, none, some, inl, inr, str_eq, eq_iff, Bool-cases,
  Option-cases, arith,
}
use smallgateway.Reload.{
  Snapshot, Renderer, ReloadOutcome, swapped, no_op, rejected, Reloader, active, store, binds,
  render_text, bind, after_render, reload_from_text,
}

module _ {C : Type 0} (from_yaml : String → Option C) (content_hash : String → String) where
  -- the snapshot that rendering a valid text stamps next
  abbrev pub rendered : Reloader C → String → String → C → Snapshot C
  rendered r text source config = record {
    config = config;
    version = r.renderer.next + 1;
    source = source;
    content_hash = content_hash text;
  }

  abbrev pub taken : Reloader C → Reloader C
  taken r = record r { renderer = record { next = r.renderer.next + 1 } }

  render_text-invalid :
      (n : Renderer) (text source : String)
      → from_yaml text ≡ none
      → render_text from_yaml content_hash n text source ≡ (n, none)
  unfolding render_text
  render_text-invalid n text source bad = rw (bad, render_text)

  render_text-valid :
      (n : Renderer) (text source : String) (config : C)
      → from_yaml text ≡ some config
      → render_text from_yaml content_hash n text source ≡ (
        record { next = n.next + 1 },
        some (record {
          config = config;
          version = n.next + 1;
          source = source;
          content_hash = content_hash text;
        }),
      )
  unfolding render_text
  render_text-valid n text source config good = rw (good, render_text)

  module _ (r : Reloader C) (text source : String) where
    pub reload-same :
        str_eq (content_hash text) r.shared.content_hash ≡ true
        → reload_from_text from_yaml content_hash r text source ≡ (r, no_op (active r))
    unfolding reload_from_text
    reload-same h = rw h

    pub reload-invalid :
        str_eq (content_hash text) r.shared.content_hash ≡ false
        → from_yaml text ≡ none
        → reload_from_text from_yaml content_hash r text source ≡ (r, rejected (active r))
    unfolding reload_from_text after_render
    reload-invalid h bad = rw (h, render_text-invalid r.renderer text source bad)

    reload-rendered :
        (config : C)
        → str_eq (content_hash text) r.shared.content_hash ≡ false
        → from_yaml text ≡ some config
        → reload_from_text from_yaml content_hash r text source
          ≡ bind from_yaml content_hash (taken r) (rendered r text source config)
    unfolding reload_from_text after_render
    reload-rendered config h good = rw (h, render_text-valid r.renderer text source config good)

    pub reload-swapped :
        (config : C)
        → str_eq (content_hash text) r.shared.content_hash ≡ false
        → from_yaml text ≡ some config
        → binds r.swap_hook (active r) (rendered r text source config) ≡ true
        → reload_from_text from_yaml content_hash r text source ≡ (
          store (taken r) (rendered r text source config),
          swapped (active r) (r.renderer.next + 1),
        )
    unfolding bind
    reload-swapped config h good bound = rw (reload-rendered config h good, bind, bound)

    pub reload-refused :
        (config : C)
        → str_eq (content_hash text) r.shared.content_hash ≡ false
        → from_yaml text ≡ some config
        → binds r.swap_hook (active r) (rendered r text source config) ≡ false
        → reload_from_text from_yaml content_hash r text source ≡ (taken r, rejected (active r))
    unfolding bind
    reload-refused config h good refused = rw (reload-rendered config h good, bind, refused)

  -- what a reload leaves in the cell, by its outcome
  abbrev pub Leaves : Reloader C → String → Reloader C × ReloadOutcome → Type 0
  Leaves r text (after, swapped old new) =
      (from_yaml text ≡ some after.shared.config) × (after.shared.content_hash ≡ content_hash text)
  Leaves r text (after, no_op version) =
      (after.shared ≡ r.shared) × (after.shared.content_hash ≡ content_hash text)
  Leaves r text (after, rejected version) = after.shared ≡ r.shared

  pub reload-Leaves :
      (r : Reloader C) (text source : String)
      → Leaves r text (reload_from_text from_yaml content_hash r text source)
  unfolding store
  reload-Leaves r text source =
      elim (Bool-cases (str_eq (content_hash text) r.shared.content_hash)) [
        | inl same ↦
            rw (reload-same r text source same)
              (refl, ground (arith, same, eq_iff (content_hash text) r.shared.content_hash))
        | inr other ↦ elim (Option-cases (from_yaml text)) [
          | inl bad ↦ rw (reload-invalid r text source other bad) refl
          | inr (config, good) ↦
              elim (Bool-cases (binds r.swap_hook (active r) (rendered r text source config))) [
                | inl bound ↦ rw (reload-swapped r text source config other good bound) (good, refl)
                | inr refused ↦ rw (reload-refused r text source config other good refused) refl
              ]
        ]
      ]
