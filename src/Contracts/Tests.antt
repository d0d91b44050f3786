-- ===== src/Contracts/Tests.antt =====
-- Examples of the transition rules.
use lhgp.Prelude.{refl, ◌≢◌, arith, here, next}
use lhgp.Contracts.Axes.{state_eq, AcceptanceStatus, attempt_state_eq}
use lhgp.Contracts.Machine.{is_valid_acceptance_transition}
use lhgp.Contracts.Machine.Verdicts.{unconfirmed_never_passes}

unconfirmed_never_passes_example :
    (AcceptanceStatus.failed ≢ AcceptanceStatus.passed)
    × (AcceptanceStatus.failed ≢ AcceptanceStatus.candidate)
unfolding is_valid_acceptance_transition
unconfirmed_never_passes_example =
    unconfirmed_never_passes AcceptanceStatus.pending AcceptanceStatus.failed (ground arith)
      (ground arith) (next here refl)
