-- ===== src/Store/Leases/Cas.antt =====
-- Compare-and-swap, idempotence and fencing of leases (src/longtask/persistence/leases.py).
use lhgp.Prelude.{
  ℕ, ◌+◌, ◌≡◌, true, Option, none, some, ◌&&◌, ◌==◌, nat_eq, if◌then◌else◌, arith, [], ◌∷◌,
}
use lhgp.Contracts.Policies.{Ident}
use lhgp.Store.Types.{StoredLease, Store, Value, ok, err, lease_cas, lease_fenced}
use lhgp.Store.Leases.{
  LeaseCall, partition_key, get_lease, replayed_lease, generation_of, acquire_lease, reclaim_lease,
  renew_lease, write_acquired, write_reclaimed, write_renewed,
}
use lhgp.Store.Leases.Rows.{granted, same_key, get-acquired, get-reclaimed, get-renewed}

same_key_self : (c : LeaseCall) → same_key c c.contract_id c.partition_id ≡ true
same_key_self c = ground arith

-- A call that is no replay acquires the lease exactly when it names the current generation (0 where
-- there is no lease). It then returns the lease that the next reader sees: the caller's, one
-- generation on. Otherwise it raises `LeaseCASError`.
pub acquire_lease_lem :
    (c : LeaseCall) (holder : Ident) (expected : ℕ) (s : Store)
    → replayed_lease c s ≡ none
    → acquire_lease c holder expected s ≡ (
        if expected == generation_of (get_lease c.contract_id c.partition_id s)
        then ok (granted c holder (expected + 1), write_acquired c holder (expected + 1) s)
        else err lease_cas)
unfolding acquire_lease
acquire_lease_lem c holder expected s fresh =
    ground
      (arith, get-acquired c c.contract_id c.partition_id s holder (expected + 1), same_key_self c)

-- Of two attempts that expect the same generation of one lease, the second to call gets
-- `LeaseCASError`, whoever it is; neither call is a replay.
pub acquire_one_winner :
    (c d : LeaseCall) (h k : Ident) (g : ℕ) (s t : Store) (l : StoredLease)
    → same_key c d.contract_id d.partition_id ≡ true
    → replayed_lease c s ≡ none
    → replayed_lease d t ≡ none
    → acquire_lease c h g s ≡ ok (l, t)
    → acquire_lease d k g t ≡ err lease_cas
acquire_one_winner c d h k g s t l same f1 f2 won = ground (
  arith,
  acquire_lease_lem c h g s f1,
  acquire_lease_lem d k g t f2,
  get-acquired c d.contract_id d.partition_id s h (g + 1),
)

-- Taking a lease over (the call is no replay) succeeds exactly for the generation that the lease is
-- at, and the next reader sees the new holder one generation on.
pub reclaim_lease_lem :
    (c : LeaseCall) (holder : Ident) (expected : ℕ) (cause : Value) (s : Store) (l : StoredLease)
    → replayed_lease c s ≡ none
    → get_lease c.contract_id c.partition_id s ≡ some l
    → reclaim_lease c (some holder) expected cause s ≡ (
        if l.generation == expected
        then ok (
          record l {
            holder_attempt_id = holder;
            generation = expected + 1;
            heartbeat_at = c.at;
            timeout = c.timeout;
          },
          write_reclaimed c l.holder_attempt_id holder (expected + 1) (("reason", cause) ∷ []) s,
        )
        else err lease_cas)
unfolding reclaim_lease
reclaim_lease_lem c holder expected cause s l fresh here = ground (
  arith,
  same_key_self c,
  get-reclaimed c c.contract_id c.partition_id s l.holder_attempt_id holder (expected + 1)
      (("reason", cause) ∷ []),
)

-- A heartbeat is accepted exactly from the holder at the lease's generation; it moves the heartbeat
-- and the timeout and keeps the rest of the lease. The call is no replay.
pub renew_lease_lem :
    (c : LeaseCall) (holder : Ident) (g : ℕ) (s : Store) (l : StoredLease)
    → replayed_lease c s ≡ none
    → get_lease c.contract_id c.partition_id s ≡ some l
    → renew_lease c holder g s ≡ (
        if l.generation == g && l.holder_attempt_id == holder
        then ok (record l { heartbeat_at = c.at; timeout = c.timeout }, write_renewed c holder g s)
        else err lease_fenced)
unfolding renew_lease
renew_lease_lem c holder g s l fresh here =
    ground (arith, same_key_self c, get-renewed c c.contract_id c.partition_id s holder g)

pub get_lease_same :
    (c : LeaseCall) (cid : Ident) (part : Option Ident) (s : Store)
    → same_key c cid part ≡ true
    → get_lease c.contract_id c.partition_id s ≡ get_lease cid part s
unfolding get_lease
get_lease_same c cid part s same =
    let e : c.contract_id ≡ cid = ground arith in
    let k : partition_key c.partition_id ≡ partition_key part = ground arith in cc
