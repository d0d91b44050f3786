-- ===== src/Store/History/Keeps.antt =====
-- The tables that the calls leave alone (src/longtask/persistence/store.py, leases.py, attempts.py).
use lhgp.Prelude.{
  ℕ, ◌≡◌, refl, Option, none, some, [], ◌∷◌, inl, inr, ◌⊎◌, Option-cases, List-cases, List, arith,
  nat_eq, ◌∙◌,
}
use lhgp.Contracts.Policies.{Ident}
use lhgp.Store.Requests.{replayed_events}
use lhgp.Store.Types.{StoredLease, ContractView, Store, Value, ok}
use lhgp.Store.Quiet.{Platform}
use lhgp.Store.Leases.{
  LeaseCall, truthy, acquire_lease, reclaim_lease, renew_lease, release_lease, write_acquired,
  write_reclaimed, write_renewed, write_released,
}
use lhgp.Store.Events.{append_event, get_events_by_request_id}
use lhgp.Store.Contracts.{StateChange, update_contract_state}
use lhgp.Store.Contracts.Update.{Updated, update_contract_state-Updated}
use lhgp.Store.Contracts.Replay.{replay_inversion}
use lhgp.Store.WriteBack.{
  WriteBack, WriteBackResult, write_back, record_report, log_events, EventInput, input_event,
  append_inputs, anchored,
}
use lhgp.Store.WriteBack.Fence.{Done, write_back-Done}
use lhgp.Store.Attempts.{set_attempt_state, mark_attempt_orphaned, register_attempt_handle}
use lhgp.Store.Attempts.Laws.{Write, written}

module _ (p : Platform) (s t : Store) where
  pub update_cases :
      (c : StateChange) (row : ContractView)
      → update_contract_state p c s ≡ ok (row, t)
      → (t ≡ s) ⊎ Updated c s row t
  update_cases c row done = elim (Option-cases (truthy c.request_id)) [
    | inl absent ↦ inr (update_contract_state-Updated p c s t row (rw absent refl) done)
    | inr (r, key) ↦ elim (List-cases (get_events_by_request_id r s)) [
      | inl fresh ↦ inr (update_contract_state-Updated p c s t row (rw (key, fresh) refl) done)
      | inr (e, es, seen) ↦ inl (replay_inversion p c s t r e es row key seen done).2
    ]
  ]

  seen_write_back :
      (w : WriteBack) (r : WriteBackResult) (k : Ident) (e : _) (es : _)
      → truthy w.request_id ≡ some k
      → get_events_by_request_id k s ≡ e ∷ es
      → write_back p w s ≡ ok (r, t)
      → t ≡ s
  unfolding write_back replayed_events
  seen_write_back w r k e es key seen done = ground arith

  pub write_back_cases :
      (w : WriteBack) (r : WriteBackResult)
      → write_back p w s ≡ ok (r, t)
      → (t ≡ s) ⊎ Done p w s r t
  write_back_cases w r done = elim (Option-cases (truthy w.request_id)) [
    | inl absent ↦ inr (write_back-Done p w s t r (rw absent refl) done)
    | inr (k, key) ↦ elim (List-cases (get_events_by_request_id k s)) [
      | inl fresh ↦ inr (write_back-Done p w s t r (rw (key, fresh) refl) done)
      | inr (e, es, seen) ↦ inl (seen_write_back w r k e es key seen done)
    ]
  ]

  -- The lease calls leave the contracts alone.
  pub acquired-contracts :
      (c : LeaseCall) (h : Ident) (g : ℕ) (l : StoredLease)
      → acquire_lease c h g s ≡ ok (l, t)
      → t.contracts ≡ s.contracts
  unfolding acquire_lease write_acquired append_event
  acquired-contracts c h g l done = ground arith

  pub reclaimed-contracts :
      (c : LeaseCall) (h : Option Ident) (g : ℕ) (u : Value) (l : StoredLease)
      → reclaim_lease c h g u s ≡ ok (l, t)
      → t.contracts ≡ s.contracts
  unfolding reclaim_lease write_reclaimed append_event
  reclaimed-contracts c none g u l done = ground arith
  reclaimed-contracts c (some h) g u l done = ground arith

  pub renewed-contracts :
      (c : LeaseCall) (h : Ident) (g : ℕ) (l : StoredLease)
      → renew_lease c h g s ≡ ok (l, t)
      → t.contracts ≡ s.contracts
  unfolding renew_lease write_renewed append_event
  renewed-contracts c h g l done = ground arith

  pub released-contracts :
      (c : LeaseCall) (h : Ident) (g : ℕ)
      → release_lease c h g s ≡ ok (tt, t)
      → t.contracts ≡ s.contracts
  unfolding release_lease write_released append_event
  released-contracts c h g done = ground arith

  pub written-contracts : (w : Write) → t ≡ written w s → t.contracts ≡ s.contracts
  unfolding set_attempt_state mark_attempt_orphaned register_attempt_handle
  written-contracts (Write.state c) e = rw e refl
  written-contracts (Write.orphaned a now) e = rw e refl
  written-contracts (Write.handle h) e = rw e refl

append_inputs-contracts :
    (w : WriteBack) (is : List EventInput) (s : Store)
    → (append_inputs w is s).1.contracts ≡ s.contracts
unfolding append_inputs append_event
append_inputs-contracts w [] s = refl
append_inputs-contracts w (i ∷ is) s =
    append_inputs-contracts w is (append_event (input_event w i) s).1

anchored-contracts :
    (w : WriteBack) (o : Option Ident) (r : List ℕ × Store)
    → (anchored w o r).1.contracts ≡ r.1.contracts
unfolding append_event
anchored-contracts w none r = refl
anchored-contracts w (some key) (i ∷ is, s) = refl
anchored-contracts w (some key) ([], s) = refl

pub log_events-contracts : (w : WriteBack) (s : Store) → (log_events w s).1.contracts ≡ s.contracts
unfolding log_events
log_events-contracts w s =
    anchored-contracts w (truthy w.request_id) (append_inputs w w.events s)
    ∙ append_inputs-contracts w w.events s

pub record_report-contracts :
    (p : Platform) (w : WriteBack) (s : Store) → (record_report p w s).contracts ≡ s.contracts
unfolding record_report
record_report-contracts p w s = refl
