-- ===== src/Infra.antt =====
-- The set-up scripts, infra/*.py.
mod Tests
pub mod Migrate
pub mod Topology
