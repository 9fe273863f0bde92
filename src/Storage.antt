-- ===== src/Storage.antt =====
-- custom_components/geofence_journal/storage: the SQLite side of the integration.
pub mod Records
pub mod Tables
pub mod Sql
pub mod RuntimeState
pub mod Transitions
pub mod Events
pub mod Maintenance
pub mod Resources
pub mod Reset
pub mod Repository
pub mod Adapter
