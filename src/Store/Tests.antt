-- ===== src/Store/Tests.antt =====
-- Examples of the store's operations.
mod Leases
mod Fencing
mod Contracts
mod WriteBack
mod Attempts
mod History
mod Drafting
mod Outbox
mod Policies
mod Authorizing
