-- ===== src/Goals.antt =====
-- Goals with a plan of stages (src/lhgp/goals/progress.py, src/longtask/persistence/store.py).
pub mod Progress
pub mod Stages
pub mod Completion
pub mod Ordering
pub mod Amending
pub mod Authorizing
mod Tests
