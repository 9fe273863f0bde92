-- ===== src/Management.antt =====
-- custom_components/geofence_journal: the management services, from the requests of
-- maintenance.py to the storage operations.
pub mod Backend
pub mod Requests
pub mod Resources
pub mod Events
pub mod Observer
