-- ===== src/Consumer.antt =====
-- The consumer service, consumer/*.py.
pub mod Tests
pub mod Buffer
pub mod Threads
pub mod Bronze
pub mod Repository
pub mod Worker
pub mod Service
pub mod Main
pub mod Metrics
pub mod Storing
