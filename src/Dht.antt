-- ===== src/Dht.antt =====
-- internal/dht: JSON documents in the Kademlia DHT with a local fallback, and compare-and-swap.
pub mod Network
pub mod Json
pub mod Addresses
pub mod Start
pub mod Cas
pub mod Samples
mod Tests
