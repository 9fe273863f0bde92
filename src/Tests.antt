-- ===== src/Tests.antt =====
-- The theorems at concrete inputs, and runs of the code.
pub mod Data
pub mod Samples
pub mod Engine
pub mod Storage
pub mod Changes
pub mod Resources
pub mod HaStates
pub mod Listeners
pub mod Exports
pub mod Services
pub mod Managers
