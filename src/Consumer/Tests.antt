-- ===== src/Consumer/Tests.antt =====
-- Runs of consumer/*.py on concrete inputs.
pub mod Memory
mod Storage
mod Buffering
pub mod Working
mod Ending
mod Persisting
