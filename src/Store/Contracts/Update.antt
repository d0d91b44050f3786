-- ===== src/Store/Contracts/Update.antt =====
-- What `update_contract_state` does on each branch (src/longtask/persistence/store.py).
use lhgp.Prelude.{
  ◌+◌, ◌≡◌, ◌≢◌, refl, ◌⊎◌, inl, inr, true, false, Option, none, some, [], ◌∷◌, ◌++◌, ◌==◌, nat_eq,
  arith, Bool-cases, Option-cases, ==_refl,
}
use lhgp.Prelude.Tables.{find, update_where}
use lhgp.Contracts.Axes.{ContractState, state_eq}
use lhgp.Contracts.Machine.{is_valid_transition}
use lhgp.Contracts.Policies.{Ident, NotifyKind}
use lhgp.Store.Requests.{replayed_events}
use lhgp.Store.Types.{StoredEvent, ContractView, Snapshot, Store, Result, ok, err, integrity_error}
use lhgp.Store.Events.{append_event, stored_event}
use lhgp.Store.Quiet.{Platform, notification_kind}
use lhgp.Store.Leases.{truthy, seen_by}
use lhgp.Store.Contracts.Revision.{Revised, find_contract}
use lhgp.Store.Contracts.{
  StateChange, is_contract, set_columns, get_contract, assert_legal_contract_transition, changed,
  snapshot_of, snapshot_at, state_event, restamp, notify, chosen_event, write_change,
  change_current, update_contract_state, revision_differs, write_revision_snapshot, reread,
}

-- The tables after the writes of one state change.
abbrev pub Written : StateChange → ContractView → Store → Store → Type 0
Written c current s t =
    Revised c.contract_id (set_columns c current) (snapshot_of c current) (state_event c current)
      current s t

-- A notification touches the outbox alone.
notify_keeps :
    (p : Platform) (c : StateChange) (current : ContractView) (e : StoredEvent)
    (o : Option NotifyKind) (s : Store)
    → notify p c current e o s ≡ record s {
      outbox = (notify p c current e o s).outbox;
      next_notification_id = (notify p c current e o s).next_notification_id;
    }
unfolding notify
notify_keeps p c current e none s = refl
notify_keeps p c current e (some kind) s = ground arith

-- The store after the writes of a state change, the notification excepted.
abbrev logged : StateChange → ContractView → Store → Store
logged c current s = record s {
  contracts = update_where (is_contract c.contract_id) (set_columns c current) s.contracts;
  snapshots = s.snapshots ++ snapshot_of c current ∷ [];
  events =
      restamp c.contract_id (current.revision + 1) s.events
      ++ stored_event (state_event c current) s.next_event_id ∷ [];
  next_event_id = s.next_event_id + 1;
}

write_change_lem :
    (p : Platform) (c : StateChange) (current : ContractView) (s : Store)
    → find (snapshot_at c.contract_id (current.revision + 1)) s.snapshots ≡ none
    → write_change p c current s
      ≡ ok (
          notify p c current
            (stored_event (state_event c current) s.next_event_id)
            (notification_kind (chosen_event c) c.new_state)
            (logged c current s))
unfolding write_change write_revision_snapshot append_event
write_change_lem p c current s free = rw (free, write_change, write_revision_snapshot)

write_change_taken :
    (p : Platform) (c : StateChange) (current : ContractView) (s : Store) (x : Snapshot)
    → find (snapshot_at c.contract_id (current.revision + 1)) s.snapshots ≡ some x
    → write_change p c current s ≡ err integrity_error
unfolding write_change write_revision_snapshot append_event
write_change_taken p c current s x taken = rw (taken, write_change, write_revision_snapshot)

logged-Written :
    (p : Platform) (c : StateChange) (current : ContractView) (e : StoredEvent)
    (o : Option NotifyKind) (s : Store)
    → Written c current s (notify p c current e o (logged c current s))
unfolding get_contract
logged-Written p c current e o s = rw (notify_keeps p c current e o (logged c current s)) (record {
  contracts = λ cid. find_contract c.contract_id cid (set_columns c current) s.contracts (λ x h. h);
  snapshots = refl;
  events = refl;
  next_event_id = refl;
  leases = refl;
  attempts = refl;
})

write_change-Written :
    (p : Platform) (c : StateChange) (current : ContractView) (s t : Store)
    → write_change p c current s ≡ ok t
    → Written c current s t
write_change-Written p c current s t done =
    elim (Option-cases (find (snapshot_at c.contract_id (current.revision + 1)) s.snapshots)) [
      | inl free ↦
          let e = stored_event (state_event c current) s.next_event_id in
          let o = notification_kind (chosen_event c) c.new_state in
          let same : notify p c current e o (logged c current s) ≡ t =
            cc (write_change_lem p c current s free, done) in
          rw same at (logged-Written p c current e o s)
      | inr (x, taken) ↦ cc (write_change_taken p c current s x taken, done)
    ]

-- What an update that is no replay has done when it returns.
pub record Updated (c : StateChange) (s : Store) (row : ContractView) (t : Store) : Type 0 where
  pub current : ContractView
  pub found : get_contract c.contract_id s ≡ some current
  pub expected : revision_differs c.expected_revision current.revision ≡ false
  pub legal : (current.state ≡ c.new_state) ⊎ (is_valid_transition current.state c.new_state ≡ true)
  pub returned : row ≡ changed c current
  pub written : Written c current s t

-- A call whose key is absent or has not been seen goes on to the contract.
pub update_fresh :
    (p : Platform) (c : StateChange) (s : Store)
    → seen_by (truthy c.request_id) s ≡ []
    → update_contract_state p c s ≡ change_current p c (get_contract c.contract_id s) s
unfolding update_contract_state replayed_events
update_fresh p c s fresh = rw (fresh, update_contract_state, replayed_events)

update_missing :
    (p : Platform) (c : StateChange) (s t : Store) (row : ContractView)
    → seen_by (truthy c.request_id) s ≡ []
    → get_contract c.contract_id s ≡ none
    → update_contract_state p c s ≢ ok (row, t)
unfolding change_current
update_missing p c s t row fresh missing done = ground (arith, update_fresh p c s fresh)

legal_cases :
    (a b : ContractState)
    → assert_legal_contract_transition a b ≡ ok tt
    → (a ≡ b) ⊎ (is_valid_transition a b ≡ true)
unfolding assert_legal_contract_transition
legal_cases a b h = elim (Bool-cases (a == b)) [
  | inl same ↦ inl ((state_eq.equal_iff a b).0 same)
  | inr other ↦ inr (ground arith)
]

pub reread_ok :
    (cid : Ident) (r : Result Store) (row : ContractView) (t : Store)
    → reread cid r ≡ ok (row, t)
    → (r ≡ ok t) × (get_contract cid t ≡ some row)
reread_ok cid (err e) row t h = cc
reread_ok cid (ok s) row t h = (ground arith, ground arith)

change_current_ok :
    (p : Platform) (c : StateChange) (current row : ContractView) (s t : Store)
    → change_current p c (some current) s ≡ ok (row, t)
    → (revision_differs c.expected_revision current.revision ≡ false)
      × (assert_legal_contract_transition current.state c.new_state ≡ ok tt)
      × (reread c.contract_id (write_change p c current s) ≡ ok (row, t))
unfolding change_current
change_current_ok p c current row s t h = (ground arith, ground arith, ground arith)

pub set_columns_self :
    (c : StateChange) (current : ContractView) → set_columns c current current ≡ changed c current
unfolding changed
set_columns_self c current = refl

Updated-of_current :
    (p : Platform) (c : StateChange) (s t : Store) (current row : ContractView)
    → get_contract c.contract_id s ≡ some current
    → change_current p c (some current) s ≡ ok (row, t)
    → Updated c s row t
Updated-of_current p c s t current row found done =
    let (exp, lawful, again) = change_current_ok p c current row s t done in
    let (wrote, here) = reread_ok c.contract_id (write_change p c current s) row t again in
    let w = write_change-Written p c current s t wrote in
    record {
      current = current;
      found = found;
      expected = exp;
      legal = legal_cases current.state c.new_state lawful;
      returned =
          ground
            (arith, w.contracts c.contract_id, ==_refl c.contract_id, set_columns_self c current);
      written = w;
    }

-- An update that returns, and is no replay, found the contract at the named revision, if one was
-- named; the transition was legal or kept the state; and the tables are written as `Written` says:
-- the contract's row is one revision on, every other contract, lease and attempt is as it was, and
-- one snapshot and one event are added.
pub update_contract_state-Updated :
    (p : Platform) (c : StateChange) (s t : Store) (row : ContractView)
    → seen_by (truthy c.request_id) s ≡ []
    → update_contract_state p c s ≡ ok (row, t)
    → Updated c s row t
update_contract_state-Updated p c s t row fresh done =
    elim (Option-cases (get_contract c.contract_id s)) [
      | inl missing ↦ absurd (update_missing p c s t row fresh missing done)
      | inr (current, found) ↦
          Updated-of_current p c s t current row found (cc (update_fresh p c s fresh))
    ]

-- Where the next revision has no snapshot, the writes succeed and the contract is read back changed.
pub write_change_total :
    (p : Platform) (c : StateChange) (current : ContractView) (s : Store)
    → get_contract c.contract_id s ≡ some current
    → find (snapshot_at c.contract_id (current.revision + 1)) s.snapshots ≡ none
    → (t : Store) × (write_change p c current s ≡ ok t)
      × (get_contract c.contract_id t ≡ some (changed c current))
write_change_total p c current s found free =
    let e = stored_event (state_event c current) s.next_event_id in
    let o = notification_kind (chosen_event c) c.new_state in
    let w = logged-Written p c current e o s in
    (
      notify p c current e o (logged c current s),
      write_change_lem p c current s free,
      ground (
        arith,
        w.contracts c.contract_id,
        found,
        ==_refl c.contract_id,
        set_columns_self c current,
      ),
    )
