-- ===== src/Dags.antt =====
-- The Airflow pipeline, dags/*.py.
mod Tests
pub mod Pipeline
pub mod Callbacks
pub mod Sync
