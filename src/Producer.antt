-- ===== src/Producer.antt =====
-- The producer service, producer/*.py.
mod Tests
pub mod Backoff
pub mod Trade
pub mod Publisher
pub mod Drain
pub mod Stream
pub mod Reconnect
pub mod Main
pub mod Metrics
