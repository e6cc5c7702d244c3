-- ===== src/Tests/Clients.antt =====
-- Reloads, streams and reconnects of a data plane at concrete inputs.
use smallgateway.Prelude.{
  ℕ, ◌≡◌, ◌≢◌, ◌↔◌, refl, String, Bool, true, false, not, Option, none, some, List, [], ◌∷◌, map,
  All, arith, str_eq, if◌then◌else◌,
}
use smallgateway.Waves.{AssignedWave}
use smallgateway.Fleet.{Fleet, Rendered}
use smallgateway.Rollout.{roll_wave, advanced}
use smallgateway.Rollout.Acks.{pushes_of}
use smallgateway.Node as Node
use smallgateway.Node.{set_partitioned}
use smallgateway.Reload.{Reloader, Snapshot, binds, active, reload_all}
use smallgateway.Reload.Refines.{Serves, serve, verdict_of, reload_all-Serves}
use smallgateway.Reload.Versions.{IsStamped, Continues, reload_all-Continues}
use smallgateway.Client.{
  Client, ServerMessage, push, share_grant, no_connection, join_refused, run_stream, redial_all,
}
use smallgateway.Client.Replies.{pushes, AreReplies, stand, last_ack, run_stream-AreReplies}
use smallgateway.Client.Outage.{outage_keeps_serving}
use smallgateway.Client.Waves.{answer, Takes, roll_wave-advances_clients}

-- every text but one is a configuration, and stands for itself
abbrev from_yaml : String → Option String
from_yaml text = if str_eq text "invalid" then none else some text

abbrev content_hash : String → String
content_hash text = text

abbrev modules : String → Bool
modules config = not (str_eq config "unloadable")

abbrev from_utf8 : List ℕ → Option String
from_utf8 [] = none
from_utf8 (b ∷ bytes) = some "second"

abbrev reloader : Reloader String
reloader = record {
  shared = record { config = "first"; version = 1; source = "file"; content_hash = "first" };
  renderer = record { next = 1 };
  path = none;
  swap_hook = some (λ version s. modules s.config);
}

abbrev texts : List (String × String)
texts =
    ("first", "a") ∷ ("invalid", "b") ∷ ("unloadable", "c") ∷ ("second", "d") ∷ ("second", "e") ∷ []

reloader-Serves : Serves from_yaml content_hash modules reloader "first"
unfolding binds
reloader-Serves = (refl, refl, λ version s. refl)

reload_all-Serves_example :
    let after = reload_all from_yaml content_hash reloader texts in
    Serves from_yaml content_hash modules after.0
      (serve from_yaml content_hash modules "first" texts).0
    × (map verdict_of after.1 ≡ (serve from_yaml content_hash modules "first" texts).1)
reload_all-Serves_example =
    reload_all-Serves from_yaml content_hash modules reloader "first" texts reloader-Serves

second_served : (serve from_yaml content_hash modules "first" texts).0 ≡ "second"
second_served = refl

reload_all-Continues_example :
    let after = reload_all from_yaml content_hash reloader texts in
    IsStamped after.0 × Continues (active reloader) after.1 (active after.0)
reload_all-Continues_example =
    reload_all-Continues from_yaml content_hash reloader texts (omega arith)

abbrev refused_snapshot : Snapshot String
refused_snapshot = record {
  config = "unloadable";
  version = 2;
  source = "s";
  content_hash = "unloadable";
}

abbrev bound_snapshot : Snapshot String
bound_snapshot = record { config = "second"; version = 3; source = "s"; content_hash = "second" }

refused_is_not_bound : binds reloader.swap_hook 1 refused_snapshot ≡ false
unfolding binds
refused_is_not_bound = refl

second_is_bound : binds reloader.swap_hook 1 bound_snapshot ≡ true
unfolding binds
second_is_bound = refl

abbrev client : Client String
client = record { reloader = reloader; last_fleet_version = 4; budgets = Node.new "n1" }

abbrev messages : List ServerMessage
messages =
    push (record { fleet_version = 5; render_hash = "second"; config = 1 ∷ [] })
    ∷ share_grant []
    ∷ push (record { fleet_version = 6; render_hash = "third"; config = [] })
    ∷ []

run_stream-AreReplies_example :
    let o = run_stream from_yaml content_hash from_utf8 client messages in
    AreReplies from_yaml content_hash from_utf8 (pushes messages) o.1
    × (stand from_yaml content_hash from_utf8 o.0
        ≡ last_ack (stand from_yaml content_hash from_utf8 client) o.1)
run_stream-AreReplies_example =
    run_stream-AreReplies from_yaml content_hash from_utf8 client messages

outage_keeps_serving_example :
    (redial_all from_yaml content_hash from_utf8 "n1"
      (client, 500)
      (no_connection ∷ join_refused ∷ [])).0
    ≡ record client { budgets = set_partitioned (Node.new "n1") true }
outage_keeps_serving_example =
    outage_keeps_serving from_yaml content_hash from_utf8 "n1" client 500 no_connection
      (join_refused ∷ []) (tt, (tt, tt))

abbrev rendered : Rendered
rendered = record { config_bytes = 1 ∷ []; render_hash = "second"; source_commit = "c1" }

abbrev fleet : Fleet
fleet = record {
  applied = rendered;
  committed_version = 0;
  per_node = [];
  desired = none;
  wave_commit = [];
  render_cache = [];
  waves_in_flight = 0;
}

abbrev wave : AssignedWave
wave = record { name = "all"; node_ids = "n1" ∷ "n2" ∷ [] }

wave_filled : wave.node_ids ≢ []
wave_filled e = cc

roll_wave-advances_clients_example :
    let at_node = answer from_yaml content_hash from_utf8 (λ id. client) in
    ((roll_wave at_node [] fleet "c1" wave).1.state ≡ advanced "c1")
    ↔ All
        (Takes from_yaml content_hash from_utf8 (λ id. client))
        (pushes_of at_node [] fleet wave.node_ids)
roll_wave-advances_clients_example =
    roll_wave-advances_clients from_yaml content_hash from_utf8 (λ id. client) [] fleet "c1" wave
      wave_filled (refl, (refl, tt))
