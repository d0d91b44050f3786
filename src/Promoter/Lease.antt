-- ===== src/Promoter/Lease.antt =====
-- Write fencing and partition compatibility (src/lhgp/promoter/lease.py).
use lhgp.Prelude.{ℕ, ◌==◌, nat_eq, not, if◌then◌else◌}
use lhgp.Contracts.Policies.{Ident}
use lhgp.Store.Types.{StoredLease, Result, ok, err, lease_fenced}

unfoldable pub check_write_fence : StoredLease → ℕ → Ident → Result (Unit {0})
check_write_fence lease write_generation write_attempt_id =
    if not (write_generation == lease.generation)
    then err lease_fenced
    else if not (write_attempt_id == lease.holder_attempt_id)
    then err lease_fenced
    else ok tt
