-- ===== src/Acceptance.antt =====
-- Acceptance specs and their verdicts (src/lhgp/acceptance/spec.py, verdict.py,
-- src/longtask/cli/tick.py, `_extract_verifier_check_results`).
pub mod Spec
pub mod Validation
pub mod Reading
pub mod Collected
pub mod Decides
pub mod Refinement
pub mod Groups
pub mod Results
mod Tests
