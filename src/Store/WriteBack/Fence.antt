-- ===== src/Store/WriteBack/Fence.antt =====
-- Only the holder of a lease writes back, and a replaced holder never does
-- (src/longtask/persistence/store.py, `write_back`).
use lhgp.Prelude.{
  ℕ, ◌<◌, ◌≡◌, refl, Option, none, some, List, [], ◌∷◌, nat_eq, inl, inr, Option-cases, arith, ◌∙◌,
}
use lhgp.Contracts.Policies.{Ident}
use lhgp.Contracts.Axes.{ContractState}
use lhgp.Store.Requests.{replayed_events}
use lhgp.Store.Types.{StoredLease, Store, Result-cases, ok, err, lease_fenced}
use lhgp.Store.Events.{append_event}
use lhgp.Store.Quiet.{Platform}
use lhgp.Store.Leases.{truthy, seen_by, get_lease}
use lhgp.Store.Leases.Fencing.{Steps, generation_monotone}
use lhgp.Store.Contracts.{update_contract_state}
use lhgp.Store.Contracts.Update.{update_contract_state-Updated}
use lhgp.Store.WriteBack.{
  EventInput, WriteBack, WriteBackResult, default_fence, check_fence, record_report, change_of,
  change_state, input_event, append_inputs, anchored, log_events, result_of, write_fresh,
  write_back,
}

-- A call whose key is absent or has not been seen goes on to the lease.
pub write_back_fresh :
    (p : Platform) (w : WriteBack) (s : Store)
    → seen_by (truthy w.request_id) s ≡ []
    → write_back p w s ≡ write_fresh p w (get_lease w.contract_id w.partition_id s) s
unfolding write_back replayed_events
write_back_fresh p w s fresh = rw (fresh, write_back, replayed_events)

fence_refuses :
    (w : WriteBack) (l : StoredLease)
    → w.fence_checker ≡ none
    → w.write_generation < l.generation
    → check_fence w l ≡ err lease_fenced
unfolding check_fence default_fence
fence_refuses w l own old = rw own (ground arith)

fence_admits :
    (w : WriteBack) (l : StoredLease)
    → w.fence_checker ≡ none
    → check_fence w l ≡ ok tt
    → (l.generation ≡ w.write_generation) × (l.holder_attempt_id ≡ w.attempt_id)
unfolding check_fence default_fence
fence_admits w l own h =
    let h2 : default_fence l w.write_generation w.attempt_id ≡ ok tt = rw own at h in
    (ground arith, ground arith)

-- Once a lease has passed to a later generation, a write back that still carries an earlier one is
-- refused with `LeaseFencedError`, whatever successful lease calls came between, as long as none of
-- them releases the lease; the call is no replay and brings no fence of its own.
pub stale_write_back_refused :
    (p : Platform) (w : WriteBack) (s t : Store) (l : StoredLease)
    → w.fence_checker ≡ none
    → seen_by (truthy w.request_id) t ≡ []
    → get_lease w.contract_id w.partition_id s ≡ some l
    → w.write_generation < l.generation
    → Steps w.contract_id w.partition_id s t
    → write_back p w t ≡ err lease_fenced
stale_write_back_refused p w s t l own fresh now old steps =
    elim (Option-cases (get_lease w.contract_id w.partition_id t)) [
      | inl gone ↦ rw (write_back_fresh p w t fresh, gone) refl
      | inr (m, later) ↦
          let grown = generation_monotone w.contract_id w.partition_id s t steps in
          ground (arith, write_back_fresh p w t fresh, fence_refuses w m own)
    ]

append_inputs-leases :
    (w : WriteBack) (is : List EventInput) (s : Store) → (append_inputs w is s).1.leases ≡ s.leases
unfolding append_inputs append_event
append_inputs-leases w [] s = refl
append_inputs-leases w (i ∷ is) s = append_inputs-leases w is (append_event (input_event w i) s).1

anchored-leases :
    (w : WriteBack) (o : Option Ident) (r : List ℕ × Store) → (anchored w o r).1.leases ≡ r.1.leases
unfolding append_event
anchored-leases w none r = refl
anchored-leases w (some key) (i ∷ is, s) = refl
anchored-leases w (some key) ([], s) = refl

log_events-leases : (w : WriteBack) (s : Store) → (log_events w s).1.leases ≡ s.leases
unfolding log_events
log_events-leases w s = cc (
  anchored-leases w (truthy w.request_id) (append_inputs w w.events s),
  append_inputs-leases w w.events s,
)

change_state-leases :
    (p : Platform) (w : WriteBack) (o : Option ContractState) (s t : Store) (n : Option ℕ)
    → change_state p w o s ≡ ok (n, t)
    → t.leases ≡ s.leases
change_state-leases p w none s t n done = ground arith
change_state-leases p w (some c) s t n done =
    elim (Result-cases (update_contract_state p (change_of w c) s)) [
      | inl (e, bad) ↦ absurd (cc (done, bad))
      | inr ((row, u), good) ↦
          let w = (update_contract_state-Updated p (change_of w c) s u row refl good).written in
          ground (arith, w.leases)
    ]

-- What a write back that is no replay has done when it returns.
pub record Done (p : Platform) (w : WriteBack) (s : Store) (r : WriteBackResult) (t : Store)
    : Type 0 where
  pub lease : StoredLease
  pub found : get_lease w.contract_id w.partition_id s ≡ some lease
  pub admitted : check_fence w lease ≡ ok tt
  pub revision : Option ℕ
  pub middle : Store
  pub changed : change_state p w w.contract_state (record_report p w s) ≡ ok (revision, middle)
  pub returned : r ≡ result_of w (log_events w middle).0 revision
  pub after : t ≡ (log_events w middle).1

Done-of_lease :
    (p : Platform) (w : WriteBack) (s t : Store) (r : WriteBackResult) (l : StoredLease)
    → get_lease w.contract_id w.partition_id s ≡ some l
    → write_fresh p w (some l) s ≡ ok (r, t)
    → Done p w s r t
Done-of_lease p w s t r l found done = elim (Result-cases (check_fence w l)) [
  | inl (e, bad) ↦ absurd (ground arith)
  | inr (ok_unit, good) ↦
      elim (Result-cases (change_state p w w.contract_state (record_report p w s))) [
        | inl (e, bad) ↦ absurd (ground arith)
        | inr ((n, u), went) ↦ record {
          lease = l;
          found = found;
          admitted = good;
          revision = n;
          middle = u;
          changed = went;
          returned = ground arith;
          after = ground arith;
        }
      ]
]

pub write_back-Done :
    (p : Platform) (w : WriteBack) (s t : Store) (r : WriteBackResult)
    → seen_by (truthy w.request_id) s ≡ []
    → write_back p w s ≡ ok (r, t)
    → Done p w s r t
write_back-Done p w s t r fresh done =
    elim (Option-cases (get_lease w.contract_id w.partition_id s)) [
      | inl gone ↦ absurd (ground (arith, write_back_fresh p w s fresh))
      | inr (l, found) ↦
          Done-of_lease p w s t r l found (ground (arith, write_back_fresh p w s fresh))
    ]

record_report-leases :
    (p : Platform) (w : WriteBack) (s : Store) → (record_report p w s).leases ≡ s.leases
unfolding record_report
record_report-leases p w s = refl

-- A write back that returns was made by the holder of the lease at the lease's generation, and leaves
-- every lease as it was; the call is no replay and brings no fence of its own.
pub write_back_by_holder :
    (p : Platform) (w : WriteBack) (s t : Store) (r : WriteBackResult)
    → w.fence_checker ≡ none
    → seen_by (truthy w.request_id) s ≡ []
    → write_back p w s ≡ ok (r, t)
    → (l : StoredLease) × (get_lease w.contract_id w.partition_id s ≡ some l)
      × (l.generation ≡ w.write_generation)
      × (l.holder_attempt_id ≡ w.attempt_id)
      × (t.leases ≡ s.leases)
write_back_by_holder p w s t r own fresh done =
    let d = write_back-Done p w s t r fresh done in
    let (g, h) = fence_admits w d.lease own d.admitted in
    let kept =
      change_state-leases p w w.contract_state (record_report p w s) d.middle d.revision
        d.changed in
    (
      d.lease,
      d.found,
      g,
      h,
      rw (d.after) (log_events-leases w d.middle ∙ kept ∙ record_report-leases p w s),
    )
