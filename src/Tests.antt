-- ===== src/Tests.antt =====
-- Witnesses of the theorems at concrete inputs, over simple instances of the external interfaces.
mod Instances
mod Versions
mod Reports
pub mod Flows
pub mod Caching
pub mod Machine
mod Metrics
mod Server
mod Start
mod Upgrades
mod Pipeline
