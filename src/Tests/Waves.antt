-- ===== src/Tests/Waves.antt =====
-- Waves that push one render to every node, at concrete inputs.
use smallgateway.Prelude.{Option, none, some, ℕ, ◌≡◌, ◌≢◌, refl, String, List, [], ◌∷◌}
use smallgateway.Prelude.Order.{text_ord}
use smallgateway.Fleet.{
  Fleet, Rendered, committed, AckResult, acked, conclude_wave, conclude_wave_multi, all_expect,
  divergences, divergence_of, expected_of,
}
use smallgateway.Fleet as Fleet
use smallgateway.Rollout.Single.{
  push_same, push_same_all, adjudicate, run_wave, roll_out, roll_out_raw, roll_out_tampered,
}
use smallgateway.Rollout.Single.Tampered.{HaltsAll}
use smallgateway.Node as Node
use smallgateway.Client.{Client}
use smallgateway.Client.Waves.{answer as clients_answer}
use smallgateway.Client.Tampered.{local_hash, roll_out_tampered-clients}

abbrev applied : Rendered
applied = record { config_bytes = 1 ∷ []; render_hash = "1"; source_commit = "c1" }

abbrev fleet : Fleet
fleet = Fleet.new applied

abbrev answer : String → ℕ → Rendered → AckResult
answer id version r = acked "1"

abbrev sessions : List String
sessions = "n1" ∷ "n2" ∷ []

abbrev from_yaml : String → Option String
from_yaml text = some text

abbrev content_hash : String → String
content_hash text = text

abbrev from_utf8 : List ℕ → Option String
from_utf8 [] = none
from_utf8 (b ∷ bytes) = some "1"

abbrev client : Client String
client = record {
  last_fleet_version = 0;
  reloader = record {
    shared = record { config = "first"; version = 1; source = "file"; content_hash = "first" };
    renderer = record { next = 1 };
    path = none;
    swap_hook = none;
  };
  budgets = Node.new "n1";
}

other_ne_local : "7" ≢ local_hash from_yaml content_hash from_utf8 (2 ∷ [])
other_ne_local e = cc

sessions-filled : sessions ≢ []
sessions-filled e = cc

roll_out_tampered-clients_example :
    let nodes = clients_answer from_yaml content_hash from_utf8 (λ id. client) in
    HaltsAll nodes
      (local_hash from_yaml content_hash from_utf8)
      fleet
      "7"
      sessions
      (roll_out_tampered nodes sessions fleet "7" (2 ∷ []))
roll_out_tampered-clients_example =
    roll_out_tampered-clients from_yaml content_hash from_utf8 (λ id. client) sessions fleet "7"
      (2 ∷ []) other_ne_local sessions-filled

applied_commits : (roll_out answer sessions fleet).1 ≡ committed "1" 2
unfolding roll_out run_wave adjudicate conclude_wave conclude_wave_multi push_same_all push_same
    divergences divergence_of Fleet.new expected_of all_expect
applied_commits = refl

raw_commits :
    (roll_out_raw answer (λ text. "1") (λ bytes. "text") sessions fleet (2 ∷ [])).1
    ≡ committed "1" 2
unfolding roll_out_raw run_wave adjudicate conclude_wave conclude_wave_multi push_same_all push_same
    divergences divergence_of expected_of all_expect
raw_commits = refl
