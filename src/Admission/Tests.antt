-- ===== src/Admission/Tests.antt =====
-- Examples of admission: a contract that lists no executor, and a candidate for its verifier.
use lhgp.Prelude.{◌≡◌, ◌↔◌, true, false, []}
use lhgp.Contracts.Policies.{Authority}
use lhgp.Admission.{closed, verifier, CandidateFacts, eligible, evaluate}
use lhgp.Admission.Eligible.{is_able, IsAuthorized, eligible_iff}

abbrev nobody : Authority
nobody = record {
  executor_policy = closed;
  executors = [];
  required_capabilities = [];
  allowed_controls = [];
  allow_parallel = false;
}

abbrev candidate : CandidateFacts
candidate = record {
  executor_id = 21;
  executor_enabled_globally = true;
  executor_concurrency_available = true;
  capability_satisfied = true;
  constraint_enforcement_proven = true;
  budget_available = true;
  verifier_independent = true;
}

eligible_iff_example :
    (eligible (evaluate nobody candidate 31 verifier) ≡ true)
    ↔ ((is_able candidate verifier ≡ true) × IsAuthorized nobody 21 31 verifier)
eligible_iff_example = eligible_iff nobody candidate 31 verifier
