-- ===== src/Store/Contracts/Invariant.antt =====
-- The invariant of the contract tables, and that every state change keeps it
-- (src/longtask/persistence/store.py).
use mathlib.Core.Path.{subst}
use lhgp.Prelude.{
  ◌+◌, ◌≤◌, ◌<◌, ◌≡◌, refl, inl, inr, false, none, some, ◌==◌, nat_eq, arith, Bool-cases, ==_refl,
  ap, sym, All, All-append_one, All-map,
}
use lhgp.Prelude.Tables.{find, find-none, find-append_one, All-update}
use lhgp.Contracts.Policies.{Ident}
use lhgp.Store.Types.{ContractView, Snapshot, Store}
use lhgp.Store.Events.{NewEvent, stored_event}
use lhgp.Store.Contracts.{
  StateChange, get_contract, changed, set_columns, snapshot_of, snapshot_at, restamp, state_event,
}
use lhgp.Store.Contracts.Revision.{Revised}
use lhgp.Store.Contracts.Update.{Written}

-- The snapshot repeats what the contract's row says.
pub record Agrees (x : Snapshot) (row : ContractView) : Type 0 where
  pub draft : x.draft ≡ row.draft
  pub state : x.state ≡ row.state
  pub deadline_status : x.deadline_status ≡ row.deadline_status
  pub acceptance_status : x.acceptance_status ≡ row.acceptance_status
  pub blocked_reason : x.blocked_reason ≡ row.blocked_reason

-- The snapshot belongs to a contract of the store and is not ahead of it.
abbrev pub IsBehind : Store → Snapshot → Type 0
IsBehind s x =
    (row : ContractView) × (get_contract x.contract_id s ≡ some row) × (x.revision ≤ row.revision)

abbrev pub IsCurrent : Store → Ident → ContractView → Type 0
IsCurrent s cid row =
    (x : Snapshot) × (find (snapshot_at cid row.revision) s.snapshots ≡ some x) × Agrees x row

-- Every snapshot is of a contract at or before its revision; the snapshot of a contract's current
-- revision is there and agrees with it; event ids have been given out below the next one.
pub record IsValid (s : Store) : Type 0 where
  pub snapshots_behind : All (IsBehind s) s.snapshots
  pub current_snapshot :
      (cid : Ident) (row : ContractView) → get_contract cid s ≡ some row → IsCurrent s cid row
  pub ids_below : All (λ e. e.event_id < s.next_event_id) s.events

module _ (cid : Ident) (current : ContractView) (s : Store)
    (found : get_contract cid s ≡ some current) where
  -- The next revision has no snapshot yet.
  pub free_revision :
      All (IsBehind s) s.snapshots
      → find (snapshot_at cid (current.revision + 1)) s.snapshots ≡ none
  free_revision behind =
      find-none (snapshot_at cid (current.revision + 1)) s.snapshots
        (All-map s.snapshots none_ahead behind)
    where
      none_ahead : (x : Snapshot) → IsBehind s x → snapshot_at cid (current.revision + 1) x ≡ false
      none_ahead x (row, here, le) = elim (Bool-cases (x.contract_id == cid)) [
        | inl same ↦
            let e : x.contract_id ≡ cid = ground arith in
            let r : row ≡ current = cc (here, found, e) in
            ground (arith, ap ContractView.revision r)
        | inr other ↦ rw other
      ]

-- The snapshot is that of the contract's row as it is rewritten.
pub record Faithful (cid : Ident) (f : ContractView → ContractView) (x : Snapshot)
    (current : ContractView) : Type 0 where
  pub own : x.contract_id ≡ cid
  pub next : x.revision ≡ current.revision + 1
  pub row : (f current).revision ≡ current.revision + 1
  pub agrees : Agrees x (f current)

module _ (cid : Ident) (f : ContractView → ContractView) (x : Snapshot) (e : NewEvent)
    (current : ContractView) (s t : Store) (found : get_contract cid s ≡ some current)
    (w : Revised cid f x e current s t) (h : Faithful cid f x current) where
  IsBehind-step : (y : Snapshot) → IsBehind s y → IsBehind t y
  IsBehind-step y (row, here, le) = elim (Bool-cases (cid == y.contract_id)) [
    | inl same ↦
        let i : cid ≡ y.contract_id = ground arith in
        let r : row ≡ current = cc (here, found, i) in
        (
          f current,
          ground (arith, w.contracts y.contract_id, r),
          omega (arith, ap ContractView.revision r, h.row),
        )
    | inr other ↦ (row, ground (arith, w.contracts y.contract_id), le)
  ]

  new-IsBehind : IsBehind t x
  new-IsBehind = (
    f current,
    ground (arith, w.contracts x.contract_id, found, ==_refl cid, h.own),
    omega (arith, h.next, h.row),
  )

  current_own : IsValid s → IsCurrent t cid (f current)
  current_own v = (
    x,
    rw (w.snapshots, h.row)
        (ground (
          arith,
          find-append_one (snapshot_at cid (current.revision + 1)) x s.snapshots,
          free_revision cid current s found v.snapshots_behind,
          ==_refl cid,
          ==_refl (current.revision + 1),
          h.own,
          h.next,
        )),
    h.agrees,
  )

  IsCurrent-kept : (k : Ident) (row : ContractView) → IsCurrent s k row → IsCurrent t k row
  IsCurrent-kept k row (y, there, agrees) = (
    y,
    rw (w.snapshots)
        (ground (arith, find-append_one (snapshot_at k row.revision) x s.snapshots, there)),
    agrees,
  )

  IsCurrent-step :
      (k : Ident) (row : ContractView) → IsValid s → get_contract k t ≡ some row → IsCurrent t k row
  IsCurrent-step k row v here = elim (Bool-cases (cid == k)) [
    | inl same ↦
        let i : cid ≡ k = ground arith in
        let r : f current ≡ row = ground (arith, w.contracts k, found, i) in
        rw (← r, ← i) (current_own v)
    | inr other ↦ IsCurrent-kept k row (v.current_snapshot k row (ground (arith, w.contracts k)))
  ]

  pub Revised-IsValid : IsValid s → IsValid t
  unfolding restamp stored_event
  Revised-IsValid v = record {
    snapshots_behind = subst (All (IsBehind t)) (sym w.snapshots) (
        All-append_one (IsBehind t) s.snapshots x
          (All-map s.snapshots IsBehind-step v.snapshots_behind) new-IsBehind);
    current_snapshot = λ k row here. IsCurrent-step k row v here;
    ids_below =
        rw (w.events, w.next_event_id)
          (All-append_one (λ e. e.event_id < s.next_event_id + 1)
            (restamp cid (current.revision + 1) s.events) _
            (All-update (λ e. e.event_id < s.next_event_id + 1) _ _ s.events (λ e h. h)
              (All-map s.events (λ e h. omega arith) v.ids_below))
            (omega arith));
  }

pub Written-IsValid :
    (c : StateChange) (current : ContractView) (s t : Store)
    → get_contract c.contract_id s ≡ some current
    → Written c current s t
    → IsValid s
    → IsValid t
unfolding changed
Written-IsValid c current s t found w =
    Revised-IsValid c.contract_id (set_columns c current) (snapshot_of c current)
      (state_event c current) current s t found w
      (record {
        own = refl;
        next = refl;
        row = refl;
        agrees = record {
          draft = refl;
          state = refl;
          deadline_status = refl;
          acceptance_status = refl;
          blocked_reason = refl;
        };
      })
