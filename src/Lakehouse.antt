-- ===== src/Lakehouse.antt =====
-- lakehouse/: the export of the Gold tables to Parquet files and its catalog
pub mod Names
pub mod Storage
pub mod Exporter
pub mod ExportState
pub mod Uploads
pub mod Catalog
pub mod Export
mod Tests
