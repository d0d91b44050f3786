-- ===== src/Store.antt =====
-- The SQLite store (src/longtask/persistence, src/lhgp/persistence), table by table.
pub mod EventType
pub mod Types
pub mod Events
pub mod Leases
pub mod Quiet
pub mod Requests
pub mod Outbox
pub mod Contracts
pub mod Drafts
pub mod Saving
pub mod Patching
pub mod WriteBack
pub mod Attempts
pub mod History
pub mod Samples
mod Tests
