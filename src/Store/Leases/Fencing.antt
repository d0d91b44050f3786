-- ===== src/Store/Leases/Fencing.antt =====
-- Over any sequence of lease calls: generations only grow while a lease is not released, so a writer
-- that a later grant has replaced stays fenced (src/longtask/persistence/leases.py,
-- src/lhgp/promoter/lease.py).
use lhgp.Prelude.{
  ℕ, ◌+◌, ◌≤◌, ◌<◌, ◌≡◌, false, Option, none, some, [], ◌∷◌, nat_eq, inl, inr, Option-cases, arith,
}
use lhgp.Contracts.Policies.{Ident}
use lhgp.Store.Types.{StoredLease, Store, Value, ok, err, lease_fenced}
use lhgp.Store.Leases.{
  LeaseCall, get_lease, generation_of, acquire_lease, reclaim_lease, renew_lease, release_lease,
}
use lhgp.Store.Leases.Rows.{same_key, get-acquired, get-reclaimed, get-renewed, get-released}
use lhgp.Store.Leases.Cas.{get_lease_same}
use lhgp.Promoter.Lease.{check_write_fence}

-- A lease call that succeeds, and is no release at the key that is watched.
pub data Step (cid : Ident) (part : Option Ident) (s t : Store) : Type 0 where
  acquired :
      (c : LeaseCall) (h : Ident) (g : ℕ) (l : StoredLease)
      → acquire_lease c h g s ≡ ok (l, t)
      → Step cid part s t
  reclaimed :
      (c : LeaseCall) (h : Option Ident) (g : ℕ) (u : Value) (l : StoredLease)
      → reclaim_lease c h g u s ≡ ok (l, t)
      → Step cid part s t
  renewed :
      (c : LeaseCall) (h : Ident) (g : ℕ) (l : StoredLease)
      → renew_lease c h g s ≡ ok (l, t)
      → Step cid part s t
  released :
      (c : LeaseCall) (h : Ident) (g : ℕ)
      → same_key c cid part ≡ false
      → release_lease c h g s ≡ ok (tt, t)
      → Step cid part s t

pub data Steps (cid : Ident) (part : Option Ident) (s : Store) : Store → Type 0 where
  here : Steps cid part s s
  next : {t u : Store} → Steps cid part s t → Step cid part t u → Steps cid part s u

module _ (cid : Ident) (part : Option Ident) where
  abbrev current : Store → ℕ
  current s = generation_of (get_lease cid part s)

  acquired_grows :
      (c : LeaseCall) (h : Ident) (g : ℕ) (l : StoredLease) (s t : Store)
      → acquire_lease c h g s ≡ ok (l, t)
      → current s ≤ current t
  unfolding acquire_lease
  acquired_grows c h g l s t done =
      ground (arith, get_lease_same c cid part s, get-acquired c cid part s h (g + 1))

  reclaimed_grows :
      (c : LeaseCall) (h : Option Ident) (g : ℕ) (u : Value) (l : StoredLease) (s t : Store)
      → reclaim_lease c h g u s ≡ ok (l, t)
      → current s ≤ current t
  unfolding reclaim_lease
  reclaimed_grows c none g u l s t done = ground arith
  reclaimed_grows c (some h) g u l s t done =
      elim (Option-cases (get_lease c.contract_id c.partition_id s)) [
        | inl missing ↦ ground arith
        | inr (old, e) ↦ ground (
          arith,
          get_lease_same c cid part s,
          get-reclaimed c cid part s old.holder_attempt_id h (g + 1) (("reason", u) ∷ []),
        )
      ]

  renewed_grows :
      (c : LeaseCall) (h : Ident) (g : ℕ) (l : StoredLease) (s t : Store)
      → renew_lease c h g s ≡ ok (l, t)
      → current s ≤ current t
  unfolding renew_lease
  renewed_grows c h g l s t done = ground (arith, get-renewed c cid part s h g)

  released_keeps :
      (c : LeaseCall) (h : Ident) (g : ℕ) (s t : Store)
      → same_key c cid part ≡ false
      → release_lease c h g s ≡ ok (tt, t)
      → current s ≤ current t
  unfolding release_lease
  released_keeps c h g s t other done = ground (arith, get-released c cid part s h g)

  Step-grows : (s t : Store) → Step cid part s t → current s ≤ current t
  Step-grows s t (acquired c h g l e) = acquired_grows c h g l s t e
  Step-grows s t (reclaimed c h g u l e) = reclaimed_grows c h g u l s t e
  Step-grows s t (renewed c h g l e) = renewed_grows c h g l s t e
  Step-grows s t (released c h g o e) = released_keeps c h g s t o e

-- The generation of a lease never falls over any sequence of successful lease calls, at this or at
-- other keys, that does not release it.
pub generation_monotone :
    (cid : Ident) (part : Option Ident) (s t : Store)
    → Steps cid part s t
    → generation_of (get_lease cid part s) ≤ generation_of (get_lease cid part t)
generation_monotone cid part s t here = omega arith
generation_monotone cid part s t (next {t = m} r st) =
    omega (arith, generation_monotone cid part s m r, Step-grows cid part m t st)

-- A writer whose generation lies below that of the lease at some moment is refused by the fence at
-- every later moment at which a lease is there, whatever successful lease calls came between, as long
-- as none of them releases the lease; and whichever attempt the writer is.
pub stale_writer_fenced :
    (cid : Ident) (part : Option Ident) (s t : Store) (l m : StoredLease) (g : ℕ) (a : Ident)
    → get_lease cid part s ≡ some l
    → g < l.generation
    → Steps cid part s t
    → get_lease cid part t ≡ some m
    → check_write_fence m g a ≡ err lease_fenced
unfolding check_write_fence
stale_writer_fenced cid part s t l m g a now old steps later =
    ground (arith, generation_monotone cid part s t steps)
