-- ===== src/Contracts/Machine.antt =====
-- The transition rules of contracts and attempts (src/lhgp/contracts/state_machine.py).
pub mod Lifecycle
pub mod Verdicts
use lhgp.Prelude.{
  Bool, true, false, not, ◌&&◌, List, [], ◌∷◌, ◌==◌, contains, filter, if◌then◌else◌,
}
use lhgp.Contracts.Axes.{
  ContractState, state_eq, DeadlineStatus, deadline_eq, AcceptanceStatus, acceptance_eq,
  AttemptState, attempt_state_eq,
}

abbrev pub terminal_states : List ContractState
terminal_states =
    ContractState.complete ∷ ContractState.satisfied ∷ ContractState.cancelled
    ∷ ContractState.archived ∷ []

abbrev pub non_terminal_states : List ContractState
non_terminal_states =
    ContractState.drafted ∷ ContractState.active ∷ ContractState.paused ∷ ContractState.blocked
    ∷ ContractState.expired ∷ []

-- `LEGAL_TRANSITIONS`, which has a key for every state.
unfoldable pub legal_transitions : ContractState → List ContractState
legal_transitions ContractState.drafted = ContractState.active ∷ ContractState.cancelled ∷ []
legal_transitions ContractState.active =
    ContractState.paused ∷ ContractState.blocked ∷ ContractState.satisfied ∷ ContractState.complete
    ∷ ContractState.expired ∷ ContractState.cancelled ∷ []
legal_transitions ContractState.paused = ContractState.active ∷ ContractState.cancelled ∷ []
legal_transitions ContractState.blocked =
    ContractState.active ∷ ContractState.satisfied ∷ ContractState.complete ∷ ContractState.archived
    ∷ ContractState.expired ∷ ContractState.cancelled ∷ []
legal_transitions ContractState.expired =
    ContractState.satisfied ∷ ContractState.complete ∷ ContractState.archived ∷ ContractState.active
    ∷ ContractState.cancelled ∷ []
legal_transitions ContractState.satisfied = []
legal_transitions ContractState.complete = []
legal_transitions ContractState.cancelled = []
legal_transitions ContractState.archived = []

unfoldable pub is_terminal_state : ContractState → Bool
is_terminal_state state = contains state terminal_states

unfoldable pub is_valid_transition : ContractState → ContractState → Bool
unfolding legal_transitions
is_valid_transition from_state to_state = contains to_state (legal_transitions from_state)

abbrev pub attempt_terminal_states : List AttemptState
attempt_terminal_states =
    AttemptState.succeeded ∷ AttemptState.failed ∷ AttemptState.cancelled ∷ AttemptState.stale
    ∷ AttemptState.orphaned ∷ []

-- The members of the enumeration, as `frozenset(AttemptState)` lists them.
abbrev pub attempt_states : List AttemptState
attempt_states =
    AttemptState.admitted ∷ AttemptState.starting ∷ AttemptState.running ∷ AttemptState.waiting
    ∷ AttemptState.succeeded ∷ AttemptState.failed ∷ AttemptState.cancelled ∷ AttemptState.stale
    ∷ AttemptState.orphaned ∷ []

abbrev pub attempt_non_terminal_states : List AttemptState
attempt_non_terminal_states = filter (λ s. not (contains s attempt_terminal_states)) attempt_states

unfoldable pub attempt_legal_transitions : AttemptState → List AttemptState
attempt_legal_transitions AttemptState.admitted =
    AttemptState.starting ∷ AttemptState.running ∷ AttemptState.failed ∷ AttemptState.cancelled
    ∷ AttemptState.stale ∷ AttemptState.orphaned ∷ []
attempt_legal_transitions AttemptState.starting =
    AttemptState.running ∷ AttemptState.failed ∷ AttemptState.cancelled ∷ AttemptState.stale
    ∷ AttemptState.orphaned ∷ []
attempt_legal_transitions AttemptState.running =
    AttemptState.waiting ∷ AttemptState.succeeded ∷ AttemptState.failed ∷ AttemptState.cancelled
    ∷ AttemptState.stale ∷ AttemptState.orphaned ∷ []
attempt_legal_transitions AttemptState.waiting =
    AttemptState.running ∷ AttemptState.succeeded ∷ AttemptState.failed ∷ AttemptState.cancelled
    ∷ AttemptState.stale ∷ AttemptState.orphaned ∷ []
attempt_legal_transitions AttemptState.succeeded = []
attempt_legal_transitions AttemptState.failed = []
attempt_legal_transitions AttemptState.cancelled = []
attempt_legal_transitions AttemptState.stale = []
attempt_legal_transitions AttemptState.orphaned = []

unfoldable pub is_terminal_attempt_state : AttemptState → Bool
is_terminal_attempt_state state = contains state attempt_terminal_states

unfoldable pub is_valid_attempt_transition : AttemptState → AttemptState → Bool
unfolding attempt_legal_transitions
is_valid_attempt_transition from_state to_state =
    contains to_state (attempt_legal_transitions from_state)

abbrev open_deadline : List DeadlineStatus
open_deadline = DeadlineStatus.not_due ∷ DeadlineStatus.at_risk ∷ []

unfoldable pub is_valid_deadline_transition : DeadlineStatus → DeadlineStatus → Bool → Bool
is_valid_deadline_transition from_status to_status deadline_passed =
    if to_status == DeadlineStatus.waived
    then true
    else if deadline_passed && contains to_status open_deadline
    then false
    else not (from_status == DeadlineStatus.missed && contains to_status open_deadline)

abbrev may_fail : List AcceptanceStatus
may_fail = AcceptanceStatus.pending ∷ AcceptanceStatus.candidate ∷ AcceptanceStatus.verifying ∷ []

unfoldable pub is_valid_acceptance_transition : AcceptanceStatus → AcceptanceStatus → Bool
is_valid_acceptance_transition from_status to_status =
    if from_status == to_status
    then true
    else if from_status == AcceptanceStatus.passed
    then false
    else if to_status == AcceptanceStatus.not_required
    then true
    else if to_status == AcceptanceStatus.failed
    then contains from_status may_fail
    else if to_status == AcceptanceStatus.passed
    then from_status == AcceptanceStatus.candidate
    else false
