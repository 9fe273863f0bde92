-- ===== src/Export.antt =====
-- custom_components/geofence_journal/export.py: CSV files of one journal and the registry of their downloads.
pub mod Csv
pub mod Rows
pub mod Registry
