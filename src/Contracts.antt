-- ===== src/Contracts.antt =====
-- The contract vocabulary (src/lhgp/contracts): the status axes and their transition rules.
pub mod Axes
pub mod Machine
pub mod Policies
pub mod Dicts
pub mod Exchange
mod Tests
