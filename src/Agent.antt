-- ===== src/Agent.antt =====
-- The agent (cmd/agent, pkg/agent): how it discovers, claims, runs and reports jobs.
pub mod Discovery
pub mod Client
pub mod Attempt
pub mod Container
pub mod Fetch
pub mod Execution
pub mod Waiting
pub mod Heartbeats
pub mod Main
mod Tests
