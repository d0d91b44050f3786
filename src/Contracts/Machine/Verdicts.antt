-- ===== src/Contracts/Machine/Verdicts.antt =====
-- The deadline and acceptance axes under their transition rules, over any chain of transitions.
use lhgp.Prelude.{◌≡◌, refl, ◌≢◌, ◌↔◌, ◌⊎◌, Bool, true, arith, Reach, Reach-closed}
use lhgp.Contracts.Axes.{DeadlineStatus, AcceptanceStatus}
use lhgp.Contracts.Machine.{is_valid_deadline_transition, is_valid_acceptance_transition}

abbrev IsClosed : DeadlineStatus → Type 0
IsClosed a = (a ≢ DeadlineStatus.not_due) × (a ≢ DeadlineStatus.at_risk)

late_step : (a b : DeadlineStatus) → is_valid_deadline_transition a b true ≡ true → IsClosed b
unfolding is_valid_deadline_transition
late_step a b v = ground arith

-- Once the deadline has passed, a status that has moved is never `not_due` or `at_risk` again,
-- however long the chain of transitions.
pub late_deadline_closed :
    (s m t : DeadlineStatus)
    → is_valid_deadline_transition s m true ≡ true
    → Reach (λ a b. is_valid_deadline_transition a b true) m t
    → (t ≢ DeadlineStatus.not_due) × (t ≢ DeadlineStatus.at_risk)
late_deadline_closed s m t v r =
    Reach-closed IsClosed (λ a b _ w. late_step a b w) (late_step s m v) r

-- From a missed deadline, and from any status once the deadline has passed, the allowed targets are
-- exactly the statuses other than `not_due` and `at_risk`.
pub deadline_moves :
    (s t : DeadlineStatus) (passed : Bool)
    → s ≡ DeadlineStatus.missed ⊎ passed ≡ true
    → (is_valid_deadline_transition s t passed ≡ true) ↔ IsClosed t
unfolding is_valid_deadline_transition
deadline_moves s t passed h = (λ v. ground arith, λ c. ground arith)

passed_step :
    (a b : AcceptanceStatus)
    → a ≡ AcceptanceStatus.passed
    → is_valid_acceptance_transition a b ≡ true
    → b ≡ AcceptanceStatus.passed
unfolding is_valid_acceptance_transition
passed_step a b e v = ground arith

-- An acceptance that has passed stays passed over any chain of transitions.
pub passed_absorbs :
    (t : AcceptanceStatus)
    → Reach is_valid_acceptance_transition AcceptanceStatus.passed t
    → t ≡ AcceptanceStatus.passed
passed_absorbs t r = Reach-closed (λ a. a ≡ AcceptanceStatus.passed) passed_step refl r

abbrev IsUnconfirmed : AcceptanceStatus → Type 0
IsUnconfirmed a = (a ≢ AcceptanceStatus.passed) × (a ≢ AcceptanceStatus.candidate)

IsUnconfirmed-step :
    (a b : AcceptanceStatus)
    → IsUnconfirmed a
    → is_valid_acceptance_transition a b ≡ true
    → IsUnconfirmed b
unfolding is_valid_acceptance_transition
IsUnconfirmed-step a b u v = ground arith

-- The rules let no acceptance pass that does not start as a candidate: from a status that is neither
-- `passed` nor `candidate`, `pending` among them, no chain of transitions reaches either.
pub unconfirmed_never_passes :
    (s t : AcceptanceStatus)
    → s ≢ AcceptanceStatus.passed
    → s ≢ AcceptanceStatus.candidate
    → Reach is_valid_acceptance_transition s t
    → (t ≢ AcceptanceStatus.passed) × (t ≢ AcceptanceStatus.candidate)
unconfirmed_never_passes s t p c r = Reach-closed IsUnconfirmed IsUnconfirmed-step (p, c) r
