-- ===== src/Contracts/Axes.antt =====
-- The status axes of contracts and attempts (src/lhgp/contracts/contract_view.py).
use lhgp.Prelude.{ℕ, zero, suc, ◌≡◌, refl, Equality, nat_beq, index_beq_iff}

-- The lifecycle axis of a contract.
pub data ContractState : Type 0 where
  drafted active paused blocked complete satisfied cancelled expired archived : ContractState

abbrev pub state_index : ContractState → ℕ
state_index ContractState.drafted = 0
state_index ContractState.active = 1
state_index ContractState.paused = 2
state_index ContractState.blocked = 3
state_index ContractState.complete = 4
state_index ContractState.satisfied = 5
state_index ContractState.cancelled = 6
state_index ContractState.expired = 7
state_index ContractState.archived = 8

abbrev pub state_of_index : ℕ → ContractState
state_of_index zero = ContractState.drafted
state_of_index (suc zero) = ContractState.active
state_of_index (suc (suc zero)) = ContractState.paused
state_of_index (suc (suc (suc zero))) = ContractState.blocked
state_of_index (suc (suc (suc (suc zero)))) = ContractState.complete
state_of_index (suc (suc (suc (suc (suc zero))))) = ContractState.satisfied
state_of_index (suc (suc (suc (suc (suc (suc zero)))))) = ContractState.cancelled
state_of_index (suc (suc (suc (suc (suc (suc (suc zero))))))) = ContractState.expired
state_of_index _ = ContractState.archived

pub state_of_index-index : (a : ContractState) → state_of_index (state_index a) ≡ a
state_of_index-index ContractState.drafted = refl
state_of_index-index _ = refl

instance abbrev pub state_eq : Equality ContractState
state_eq = record {
  equal = λ a b. nat_beq (state_index a) (state_index b);
  equal_iff = index_beq_iff state_index state_of_index state_of_index-index;
}

-- The deadline axis.
pub data DeadlineStatus : Type 0 where
  not_due at_risk met missed waived : DeadlineStatus

abbrev pub deadline_index : DeadlineStatus → ℕ
deadline_index DeadlineStatus.not_due = 0
deadline_index DeadlineStatus.at_risk = 1
deadline_index DeadlineStatus.met = 2
deadline_index DeadlineStatus.missed = 3
deadline_index DeadlineStatus.waived = 4

abbrev pub deadline_of_index : ℕ → DeadlineStatus
deadline_of_index zero = DeadlineStatus.not_due
deadline_of_index (suc zero) = DeadlineStatus.at_risk
deadline_of_index (suc (suc zero)) = DeadlineStatus.met
deadline_of_index (suc (suc (suc zero))) = DeadlineStatus.missed
deadline_of_index _ = DeadlineStatus.waived

pub deadline_of_index-index : (a : DeadlineStatus) → deadline_of_index (deadline_index a) ≡ a
deadline_of_index-index DeadlineStatus.not_due = refl
deadline_of_index-index _ = refl

instance abbrev pub deadline_eq : Equality DeadlineStatus
deadline_eq = record {
  equal = λ a b. nat_beq (deadline_index a) (deadline_index b);
  equal_iff = index_beq_iff deadline_index deadline_of_index deadline_of_index-index;
}

-- The acceptance axis.
pub data AcceptanceStatus : Type 0 where
  pending candidate verifying passed failed undetermined not_required : AcceptanceStatus

abbrev pub acceptance_index : AcceptanceStatus → ℕ
acceptance_index AcceptanceStatus.pending = 0
acceptance_index AcceptanceStatus.candidate = 1
acceptance_index AcceptanceStatus.verifying = 2
acceptance_index AcceptanceStatus.passed = 3
acceptance_index AcceptanceStatus.failed = 4
acceptance_index AcceptanceStatus.undetermined = 5
acceptance_index AcceptanceStatus.not_required = 6

abbrev pub acceptance_of_index : ℕ → AcceptanceStatus
acceptance_of_index zero = AcceptanceStatus.pending
acceptance_of_index (suc zero) = AcceptanceStatus.candidate
acceptance_of_index (suc (suc zero)) = AcceptanceStatus.verifying
acceptance_of_index (suc (suc (suc zero))) = AcceptanceStatus.passed
acceptance_of_index (suc (suc (suc (suc zero)))) = AcceptanceStatus.failed
acceptance_of_index (suc (suc (suc (suc (suc zero))))) = AcceptanceStatus.undetermined
acceptance_of_index _ = AcceptanceStatus.not_required

pub acceptance_of_index-index :
    (a : AcceptanceStatus) → acceptance_of_index (acceptance_index a) ≡ a
acceptance_of_index-index AcceptanceStatus.pending = refl
acceptance_of_index-index _ = refl

instance abbrev pub acceptance_eq : Equality AcceptanceStatus
acceptance_eq = record {
  equal = λ a b. nat_beq (acceptance_index a) (acceptance_index b);
  equal_iff = index_beq_iff acceptance_index acceptance_of_index acceptance_of_index-index;
}

-- Why a contract is blocked.
pub data BlockReason : Type 0 where
  need_user lease_dead budget_exhausted constraint_refused no_executor acceptance_failed
        deadline_missed need_arbitration capacity_full :
      BlockReason

abbrev pub reason_index : BlockReason → ℕ
reason_index BlockReason.need_user = 0
reason_index BlockReason.lease_dead = 1
reason_index BlockReason.budget_exhausted = 2
reason_index BlockReason.constraint_refused = 3
reason_index BlockReason.no_executor = 4
reason_index BlockReason.acceptance_failed = 5
reason_index BlockReason.deadline_missed = 6
reason_index BlockReason.need_arbitration = 7
reason_index BlockReason.capacity_full = 8

abbrev pub reason_of_index : ℕ → BlockReason
reason_of_index zero = BlockReason.need_user
reason_of_index (suc zero) = BlockReason.lease_dead
reason_of_index (suc (suc zero)) = BlockReason.budget_exhausted
reason_of_index (suc (suc (suc zero))) = BlockReason.constraint_refused
reason_of_index (suc (suc (suc (suc zero)))) = BlockReason.no_executor
reason_of_index (suc (suc (suc (suc (suc zero))))) = BlockReason.acceptance_failed
reason_of_index (suc (suc (suc (suc (suc (suc zero)))))) = BlockReason.deadline_missed
reason_of_index (suc (suc (suc (suc (suc (suc (suc zero))))))) = BlockReason.need_arbitration
reason_of_index _ = BlockReason.capacity_full

pub reason_of_index-index : (a : BlockReason) → reason_of_index (reason_index a) ≡ a
reason_of_index-index BlockReason.need_user = refl
reason_of_index-index _ = refl

instance abbrev pub reason_eq : Equality BlockReason
reason_eq = record {
  equal = λ a b. nat_beq (reason_index a) (reason_index b);
  equal_iff = index_beq_iff reason_index reason_of_index reason_of_index-index;
}

-- The lifecycle axis of an attempt.
pub data AttemptState : Type 0 where
  admitted starting running waiting succeeded failed cancelled stale orphaned : AttemptState

abbrev pub attempt_state_index : AttemptState → ℕ
attempt_state_index AttemptState.admitted = 0
attempt_state_index AttemptState.starting = 1
attempt_state_index AttemptState.running = 2
attempt_state_index AttemptState.waiting = 3
attempt_state_index AttemptState.succeeded = 4
attempt_state_index AttemptState.failed = 5
attempt_state_index AttemptState.cancelled = 6
attempt_state_index AttemptState.stale = 7
attempt_state_index AttemptState.orphaned = 8

abbrev pub attempt_state_of_index : ℕ → AttemptState
attempt_state_of_index zero = AttemptState.admitted
attempt_state_of_index (suc zero) = AttemptState.starting
attempt_state_of_index (suc (suc zero)) = AttemptState.running
attempt_state_of_index (suc (suc (suc zero))) = AttemptState.waiting
attempt_state_of_index (suc (suc (suc (suc zero)))) = AttemptState.succeeded
attempt_state_of_index (suc (suc (suc (suc (suc zero))))) = AttemptState.failed
attempt_state_of_index (suc (suc (suc (suc (suc (suc zero)))))) = AttemptState.cancelled
attempt_state_of_index (suc (suc (suc (suc (suc (suc (suc zero))))))) = AttemptState.stale
attempt_state_of_index _ = AttemptState.orphaned

pub attempt_state_of_index-index :
    (a : AttemptState) → attempt_state_of_index (attempt_state_index a) ≡ a
attempt_state_of_index-index AttemptState.admitted = refl
attempt_state_of_index-index _ = refl

instance abbrev pub attempt_state_eq : Equality AttemptState
attempt_state_eq = record {
  equal = λ a b. nat_beq (attempt_state_index a) (attempt_state_index b);
  equal_iff = index_beq_iff attempt_state_index attempt_state_of_index attempt_state_of_index-index;
}
