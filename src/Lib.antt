-- ===== src/Lib.antt =====
-- smallgateway: the gateway's budget enforcement and its configuration rollout.
--
-- The program has a data plane, which proxies requests and meters their tokens, and a control
-- plane, which hands out configuration and shares of caps. The scopes above a route compose to its
-- policy (Scope), which says whom a request is charged to (Attribution) and under which caps
-- (Budget). The node admits the request and meters the stream against the terms (Node, Sse,
-- Metering), reports its spend, and the control plane sums the reports and grants shares (Ledger).
-- On a new commit the control plane assigns the nodes to waves (Waves), pushes each node its own
-- render wave by wave (Fleet, Rollout), records what the nodes answer (Store), and heals nodes that
-- drift (Reconcile). Where a canary policy is on, a wave counts only once the telemetry of its nodes
-- compares well to that of the later waves (Telemetry, Canary), and is rolled back otherwise
-- (CanaryRollout). A commit must be admitted by the rules first (Admission), and the overlays of a
-- repository change the render of the nodes that they select (GatewaySets). Nodes join with tokens
-- (Tokens), and a stream per node carries pushes and answers, spend and shares (Sessions, Server). A
-- node swaps what it serves as one snapshot (Reload), answers each push, and goes on serving while the
-- control plane is away (Client).
--
-- Files and sources:
--   Prelude   shared names, `Ord`, `BTreeMap`, `Result`, texts.
--   Float     the part of `f64` that the program uses: non-negative values, in units of 2^-1074,
--             each operation rounded to nearest, ties to even.
--   Budget    crates/gateway-core/src/budget.rs: KeyCap, LocalBudget, AlertLatch.
--   Ledger    crates/gatewayctl/src/budget.rs: FleetBudgets.
--   Node      crates/gatewayd/src/budget.rs: NodeBudgets.
--   Waves     crates/gatewayctl/src/waves.rs: Selector, WavePlan, parse_wave_plan.
--   Fleet     crates/gatewayctl/src/fleet.rs: Fleet, conclude_wave_multi, canonical_labels.
--   Store     crates/gatewayctl/src/store.rs: RuntimeStore.
--   Reconcile crates/gatewayctl/src/reconcile.rs: classify, tick, act; heal_node of
--             crates/gatewayctl/src/rollout.rs.
--   Rollout   crates/gatewayctl/src/rollout.rs: roll_out_plan, run_wave_nodes, run_wave.
--   Reload    crates/gateway-core/src/snapshot.rs and crates/gatewayd/src/reload.rs: Renderer, Reloader.
--   Client    crates/gatewayd/src/client.rs: bind_push, wait_first_push, connect_once, supervise.
--   Telemetry crates/gatewayctl/src/telemetry.rs: parse_health, FleetTelemetry.
--   Tokens    crates/gatewayctl/src/token.rs: JoinTokens.
--   Sessions  crates/gatewayctl/src/server.rs: Sessions, push_and_await, clear_pending.
--   Server    crates/gatewayctl/src/server.rs: ControlPlane, the steps of session.
--   Canary    crates/gatewayctl/src/canary.rs: CanaryPolicy, analyze, parse_canary_policy.
--   CanaryRollout crates/gatewayctl/src/canary_rollout.rs: roll_out_plan_canary, rollback_wave.
--   GatewaySets crates/gatewayctl/src/gatewayset.rs: GatewaySets, deep_merge_mapping, parse_gatewaysets.
--   Admission crates/gatewayctl/src/admission.rs: AdmissionPolicy, the built-in rules.
--   Sse       crates/gateway-core/src/sse.rs: SseParser.
--   Metering  crates/gateway-core/src/event.rs and metering.rs: Event, Meter.
--   Frames    crates/gateway-core/src/eventstream.rs: FrameDecoder, decode_frame, encode_frame.
--   Scope     crates/gateway-core/src/scope.rs: compose.
--   Attribution crates/gateway-core/src/attribution.rs: resolve.
--   Tests     each theorem at a concrete input, and runs of the definitions.
--
-- How the code is read: a method on a mutex's content or on `&mut self` is one function from the
-- state to the state and the result. A map is the list of its entries in the order of the keys. `u64`
-- operations saturate where the source says so, and wrap (`% 2 ^ 64`) where it sums plainly; the
-- version of a node is counted without a bound. The clock is an argument. The fuel of `drain` is the
-- length of the buffer, which every round shortens by two bytes or more; that of `drain_frames` and
-- `decode_headers` is the length of their bytes, of which a round takes 16 and 4 or more.
--
-- Arguments that stand for code elsewhere: `from_timestamp` (chrono), `from_str` (serde_yaml),
-- `from_utf8_lossy`, `answer` (what a node makes of a push), the `render` of
-- DesiredInputs, what a derivation of Attribution computes, of Frames the checksum `hash` (crc32)
-- and `as_bytes`, the UTF-8 of a text, of Reload and Client `from_yaml` (what a text means as a
-- configuration), `content_hash` (SHA-256), `from_utf8` and the swap hook, of Telemetry and
-- Admission `parse_f64`, of Admission `parse` (which configuration a text means), `holds` (CEL) and
-- `render` (the render of a node with these labels), and of CanaryRollout `elapse` (what is reported
-- while a window is open) and `polls` (what the gate says).
--
-- Not modelled: logs and the texts of errors and alerts, the tasks that run between the steps of a
-- rollout or a tick, validating the configuration, the provider adapters, the
-- proxy itself, and the network.
pub mod Prelude
pub mod Float
pub mod Budget
pub mod Ledger
pub mod Node
pub mod Waves
pub mod Fleet
pub mod Store
pub mod Reconcile
pub mod Rollout
pub mod Reload
pub mod Client
pub mod Telemetry
pub mod Canary
pub mod CanaryRollout
pub mod GatewaySets
pub mod Admission
pub mod Tokens
pub mod Sessions
pub mod Server
pub mod Sse
pub mod Metering
pub mod Frames
pub mod Scope
pub mod Attribution
pub mod Tests
