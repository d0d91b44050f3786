-- ===== src/Promoter.antt =====
-- The promoter's rules (src/lhgp/promoter).
pub mod Lease
pub mod Urgency
pub mod Escalation
pub mod Fairness
mod Tests
