-- ===== src/Store/Leases/Replay.antt =====
-- A lease call that carries a request id may be repeated (src/longtask/persistence/leases.py).
use lhgp.Prelude.{
  ℕ, ◌+◌, ◌≡◌, refl, Bool, true, Option, none, some, List, [], ◌∷◌, ◌++◌, nat_eq, filter, inl, inr,
  Option-cases, arith,
}
use lhgp.Contracts.Policies.{Ident}
use lhgp.Store.Types.{StoredLease, StoredEvent, Store, Payload, Value, ok}
use lhgp.Store.Events.{asked_by}
use lhgp.Store.Leases.{
  LeaseCall, truthy, get_lease, replay_of, replayed_lease, acquire_lease, reclaim_lease,
  renew_lease, write_acquired, write_reclaimed, write_renewed,
}

replay_of_last :
    (p : StoredEvent → Bool) (es : List StoredEvent) (e : StoredEvent) (lease : Option StoredLease)
    → p e ≡ true
    → replay_of (filter p (es ++ e ∷ [])) lease ≡ lease
replay_of_last p [] e lease h = rw h
replay_of_last p (x ∷ es) e lease h = ground (arith, replay_of_last p es e lease)

asked_by_own :
    (o : Option Ident) (e : StoredEvent) (r : Ident)
    → truthy o ≡ some r
    → e.request_id ≡ o
    → asked_by r e ≡ true
asked_by_own o e r key same = ground arith

-- Where the log ends in an event of the call's request id, the call is a replay and answers with the
-- lease that is there.
replayed-logged :
    (c : LeaseCall) (r : Ident) (es : List StoredEvent) (e : StoredEvent) (t : Store)
    → truthy c.request_id ≡ some r
    → e.request_id ≡ c.request_id
    → t.events ≡ es ++ e ∷ []
    → replayed_lease c t ≡ get_lease c.contract_id c.partition_id t
unfolding replayed_lease
replayed-logged c r es e t key same log =
    rw (key, log)
      (replay_of_last (asked_by r) es e (get_lease c.contract_id c.partition_id t)
        (asked_by_own c.request_id e r key same))

module _ (c : LeaseCall) (r : ℕ) (s : Store) (key : truthy c.request_id ≡ some r) where
  replayed-acquired :
      (h : Ident) (g : ℕ)
      → let t = write_acquired c h g s in
        replayed_lease c t ≡ get_lease c.contract_id c.partition_id t
  unfolding write_acquired
  replayed-acquired h g = replayed-logged c r s.events _ (write_acquired c h g s) key refl refl

  replayed-reclaimed :
      (p h : Ident) (g : ℕ) (cause : Payload)
      → let t = write_reclaimed c p h g cause s in
        replayed_lease c t ≡ get_lease c.contract_id c.partition_id t
  unfolding write_reclaimed
  replayed-reclaimed p h g cause =
      replayed-logged c r s.events _ (write_reclaimed c p h g cause s) key refl refl

  replayed-renewed :
      (h : Ident) (g : ℕ)
      → let t = write_renewed c h g s in
        replayed_lease c t ≡ get_lease c.contract_id c.partition_id t
  unfolding write_renewed
  replayed-renewed h g = replayed-logged c r s.events _ (write_renewed c h g s) key refl refl

-- Repeating `acquire_lease` with the non-empty request id of a call that succeeded returns what that call
-- returned and changes nothing, whatever holder and generation the repetition names.
pub acquire_lease_replay :
    (c : LeaseCall) (h k : Ident) (g n r : ℕ) (s t : Store) (l : StoredLease)
    → truthy c.request_id ≡ some r
    → acquire_lease c h g s ≡ ok (l, t)
    → acquire_lease c k n t ≡ ok (l, t)
unfolding acquire_lease
acquire_lease_replay c h k g n r s t l key first =
    ground (arith, replayed-acquired c r s key h (g + 1))

-- Repeating `reclaim_lease` with the non-empty request id of a call that succeeded returns what that call
-- returned and changes nothing, whatever holder, generation and reason the repetition names.
pub reclaim_lease_replay :
    (c : LeaseCall) (h k : Option Ident) (g n r : ℕ) (u v : Value) (s t : Store) (l : StoredLease)
    → truthy c.request_id ≡ some r
    → reclaim_lease c h g u s ≡ ok (l, t)
    → reclaim_lease c k n v t ≡ ok (l, t)
unfolding reclaim_lease
reclaim_lease_replay c none k g n r u v s t l key first = ground arith
reclaim_lease_replay c (some h) k g n r u v s t l key first =
    elim (Option-cases (get_lease c.contract_id c.partition_id s)) [
      | inl missing ↦ ground arith
      | inr (old, e) ↦
          ground (
            arith,
            replayed-reclaimed c r s key old.holder_attempt_id h (g + 1) (("reason", u) ∷ []),
          )
    ]

-- Repeating `renew_lease` with the non-empty request id of a call that succeeded returns what that call
-- returned and changes nothing, whatever holder and generation the repetition names.
pub renew_lease_replay :
    (c : LeaseCall) (h k : Ident) (g n r : ℕ) (s t : Store) (l : StoredLease)
    → truthy c.request_id ≡ some r
    → renew_lease c h g s ≡ ok (l, t)
    → renew_lease c k n t ≡ ok (l, t)
unfolding renew_lease
renew_lease_replay c h k g n r s t l key first = ground (arith, replayed-renewed c r s key h g)
