-- ===== src/Control.antt =====
-- cmd/control: the control server, its HTTP handlers, its background loops and its mirror in the DHT.
pub mod World
pub mod Requests
pub mod Announce
pub mod Index
pub mod Claims
pub mod Heartbeats
pub mod Finishes
pub mod Jobs
pub mod Create
pub mod Releases
pub mod Manifests
pub mod Loops
pub mod Routes
pub mod Logs
pub mod Server
pub mod Main
mod Tests
