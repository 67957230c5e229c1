-- ===== src/Lease.antt =====
-- internal/lease: the job store of the control server (types.go, store.go, pg_store.go).
pub mod Types
pub mod Table
pub mod Update
pub mod Store
pub mod History
pub mod Fencing
mod Tests
pub mod Queries
pub mod Invariant
pub mod Recovery
pub mod Held
pub mod Statements
pub mod Exclusion
