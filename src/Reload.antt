-- ===== src/Reload.antt =====
-- crates/gateway-core/src/snapshot.rs, the renderer, and crates/gatewayd/src/reload.rs: the one path by
-- which a running data plane changes its configuration. What a text means (`Config::from_yaml`), the
-- hash of a text, and what the swap hook says of a new snapshot are arguments; the lock makes the
-- reloads a sequence. Threads, signals and logs are left out.
pub mod Cases
pub mod Refines
pub mod Versions
use smallgateway.Prelude.{
  ℕ, ◌+◌, String, Bool, true, false, Option, none, some, List, [], ◌∷◌, ◌==◌, if◌then◌else◌, str_eq,
}

pub record Snapshot (C : Type 0) : Type 0 where
  pub config : C
  pub version : ℕ
  pub source : String
  pub content_hash : String

-- the version of the last snapshot that was stamped
pub record Renderer : Type 0 where
  pub next : ℕ

pub data ReloadOutcome : Type 0 where
  swapped : ℕ → ℕ → ReloadOutcome
  no_op : ℕ → ReloadOutcome
  rejected : ℕ → ReloadOutcome

-- `==` on modification times
unfoldable pub same : Option ℕ → Option ℕ → Bool
same none none = true
same (some a) (some b) = a == b
same _ _ = false

-- The cell that requests load, the renderer, and the path in file mode. The hook is there once it is
-- installed, and says of the active version and the next snapshot whether its modules bind.
pub record Reloader (C : Type 0) : Type 0 where
  pub shared : Snapshot C
  pub renderer : Renderer
  pub path : Option String
  pub swap_hook : Option (ℕ → Snapshot C → Bool)

abbrev pub fresh : Renderer
fresh = record { next = 0 }

module _ {C : Type 0} where
  abbrev pub load : Reloader C → Snapshot C
  load r = r.shared

  abbrev pub active : Reloader C → ℕ
  active r = r.shared.version

  unfoldable pub store : Reloader C → Snapshot C → Reloader C
  store r s = record r { shared = s }

  unfoldable pub set_swap_hook : Reloader C → (ℕ → Snapshot C → Bool) → Reloader C
  set_swap_hook r hook = record r { swap_hook = some hook }

  -- `hook(old, &next)`, and no hook lets every snapshot pass
  unfoldable pub binds : Option (ℕ → Snapshot C → Bool) → ℕ → Snapshot C → Bool
  binds none old s = true
  binds (some hook) old s = hook old s

module _ {C : Type 0} (from_yaml : String → Option C) (content_hash : String → String) where
  -- a text that is not valid takes no version
  unfoldable pub render_text : Renderer → String → String → Renderer × Option (Snapshot C)
  render_text r text source = elim (from_yaml text) [
    | none ↦ (r, none)
    | some config ↦
        let version = r.next + 1 in
        (
          record { next = version },
          some (record {
            config = config;
            version = version;
            source = source;
            content_hash = content_hash text;
          }),
        )
  ]

  -- `read` is what reading the file gave
  unfoldable pub render_file : Renderer → Option String → String → Renderer × Option (Snapshot C)
  render_file r read path = elim read [ none ↦ (r, none) | some text ↦ render_text r text path ]

  abbrev started : Option String → Renderer × Option (Snapshot C) → Option (Reloader C)
  started path (r, none) = none
  started path (r, some s) =
      some (record { shared = s; renderer = r; path = path; swap_hook = none })

  unfoldable pub bootstrap : Option String → String → Option (Reloader C)
  bootstrap read path = started (some path) (render_file fresh read path)

  unfoldable pub bootstrap_from_text : String → String → Option (Reloader C)
  bootstrap_from_text text source = started none (render_text fresh text source)

  -- the snapshot that was rendered, past the hook and into the cell
  unfoldable pub bind : Reloader C → Snapshot C → Reloader C × ReloadOutcome
  bind r next =
      if binds r.swap_hook (active r) next
      then (store r next, swapped (active r) next.version)
      else (r, rejected (active r))

  unfoldable pub after_render :
      Reloader C → Renderer × Option (Snapshot C) → Reloader C × ReloadOutcome
  after_render r (renderer, none) = (record r { renderer = renderer }, rejected (active r))
  after_render r (renderer, some next) = bind (record r { renderer = renderer }) next

  unfoldable pub reload_from_text : Reloader C → String → String → Reloader C × ReloadOutcome
  reload_from_text r text source =
      if str_eq (content_hash text) r.shared.content_hash
      then (r, no_op (active r))
      else after_render r (render_text r.renderer text source)

  -- `reload`: what is read stands in `read`
  unfoldable pub reload : Reloader C → Option String → Reloader C × ReloadOutcome
  reload r read = elim r.path [
    | none ↦ (r, no_op (active r))
    | some path ↦ elim read [
      | none ↦ (r, rejected (active r))
      | some text ↦ reload_from_text r text path
    ]
  ]

  -- one tick of the poll watcher, where `mtime` is what the file's status says
  unfoldable pub poll :
      Option ℕ
      → Reloader C
      → Option ℕ
      → Option String
      → Option ℕ × Reloader C × Option ReloadOutcome
  poll last_mtime r mtime read =
      if same last_mtime mtime
      then (last_mtime, r, none)
      else (mtime, (reload r read).0, some (reload r read).1)

  -- the reloads of texts, each with its source
  unfoldable pub reload_all : Reloader C → List (String × String) → Reloader C × List ReloadOutcome
  reload_all r [] = (r, [])
  reload_all r ((text, source) ∷ texts) =
      let one = reload_from_text r text source in
      let rest = reload_all one.0 texts in (rest.0, one.1 ∷ rest.1)
