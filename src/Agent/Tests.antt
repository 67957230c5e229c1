-- ===== src/Agent/Tests.antt =====
-- The agent at concrete inputs.
mod Runs
mod Work
mod Waits
