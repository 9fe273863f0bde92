-- ===== src/Runtime.antt =====
-- custom_components/geofence_journal/runtime: the transition engine of one rule.
pub mod State
pub mod Contracts
pub mod SqliteStore
pub mod Action
pub mod Engine
pub mod Coherence
pub mod Samples
pub mod Soundness
pub mod Lifecycle
pub mod Progress
pub mod Fuel
