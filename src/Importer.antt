-- ===== src/Importer.antt =====
-- analyze/files/import-results.py: the import of benchmark records and raw points into InfluxDB.
pub mod Timestamps
pub mod Batches
pub mod Json
pub mod Evidence
pub mod Tags
pub mod RawFile
