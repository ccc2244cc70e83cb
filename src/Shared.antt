-- ===== src/Shared.antt =====
-- What the services share, shared/*.py.
mod Tests
pub mod Metrics
pub mod Logger
