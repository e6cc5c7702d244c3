-- ===== src/Tests.antt =====
-- The theorems at concrete inputs, and runs of the definitions.
mod Budgets
mod Nodes
mod Fleets
mod Streams
mod Binary
mod Scopes
mod Floats
mod Clients
mod Canaries
mod Servers
mod Policies
mod Waves
