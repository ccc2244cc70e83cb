-- ===== src/Infra/Tests.antt =====
-- Runs of infra/*.py on concrete inputs.
mod Migrating
mod Declaring
mod Launching
