-- ===== src/Task.antt =====
-- internal/task: the documents in the DHT, their keys, and leases kept in the DHT.
pub mod Types
pub mod Keys
pub mod Claim
pub mod Leases
mod Tests
