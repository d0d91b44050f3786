-- ===== src/Store/Saving/Update.antt =====
-- What `save_contract` does when it returns (src/longtask/persistence/store.py).
use mathlib.Core.Path.{subst}
use lhgp.Prelude.{
  ◌+◌, ◌≡◌, ◌<◌, refl, sym, ◌⊎◌, inl, inr, Bool-cases, none, some, [], ◌∷◌, ◌++◌, ◌==◌, nat_eq,
  arith, Option-cases, if◌then◌else◌, ==_refl, All, All-append_one, All-map,
}
use lhgp.Prelude.Tables.{find, find-append_one}
use lhgp.Contracts.Policies.{Ident}
use lhgp.Store.Types.{ContractView, Snapshot, Store, ok}
use lhgp.Store.Events.{append_event, stored_event}
use lhgp.Store.Quiet.{Platform}
use lhgp.Store.Leases.{truthy, seen_by}
use lhgp.Store.Contracts.{is_contract, get_contract, snapshot_at, write_revision_snapshot, reread}
use lhgp.Store.Contracts.Update.{reread_ok}
use lhgp.Store.Contracts.Invariant.{IsValid, IsBehind, IsCurrent}
use lhgp.Store.Saving.{
  Saving, goal_saved, drafted_row, first_snapshot, prepared_event, write_draft, save_contract,
  saved_before,
}

-- The tables after a contract has been drafted.
pub record Drafted (c : Saving) (s t : Store) : Type 0 where
  pub fresh : get_contract c.contract_id s ≡ none
  pub contracts :
      (k : Ident)
      → get_contract k t ≡ (if c.contract_id == k then some (drafted_row c) else get_contract k s)
  pub free : find (snapshot_at c.contract_id c.revision) s.snapshots ≡ none
  pub snapshots : t.snapshots ≡ s.snapshots ++ first_snapshot c ∷ []
  pub events : t.events ≡ s.events ++ stored_event (prepared_event c) s.next_event_id ∷ []
  pub next_event_id : t.next_event_id ≡ s.next_event_id + 1

abbrev drafted_store : Saving → Store → Store
drafted_store c s = record s {
  goals = goal_saved c s.goals;
  contracts = s.contracts ++ drafted_row c ∷ [];
  snapshots = s.snapshots ++ first_snapshot c ∷ [];
  events = s.events ++ stored_event (prepared_event c) s.next_event_id ∷ [];
  next_event_id = s.next_event_id + 1;
}

drafted_store-Drafted :
    (c : Saving) (s : Store)
    → get_contract c.contract_id s ≡ none
    → find (snapshot_at c.contract_id c.revision) s.snapshots ≡ none
    → Drafted c s (drafted_store c s)
unfolding get_contract drafted_row
drafted_store-Drafted c s fresh free = record {
  fresh = fresh;
  contracts = λ k. elim (Bool-cases (c.contract_id == k)) [
    | inl same ↦
        let i : c.contract_id ≡ k = ground arith in
        rw (← i) (
          ground (
            arith,
            find-append_one (is_contract c.contract_id) (drafted_row c) s.contracts,
            ==_refl c.contract_id,
          ))
    | inr other ↦ ground (
      arith,
      find-append_one (is_contract k) (drafted_row c) s.contracts,
      Option-cases (find (is_contract k) s.contracts),
    )
  ];
  free = free;
  snapshots = refl;
  events = refl;
  next_event_id = refl;
}

write_draft_ok :
    (c : Saving) (s t : Store)
    → write_draft c s ≡ ok t
    → (get_contract c.contract_id s ≡ none)
      × (find (snapshot_at c.contract_id c.revision) s.snapshots ≡ none)
      × (drafted_store c s ≡ t)
unfolding write_draft write_revision_snapshot append_event get_contract
write_draft_ok c s t done = (ground arith, ground arith, ground arith)

-- What a call that is no replay has done when it returns.
pub record Saved (c : Saving) (s : Store) (row : ContractView) (t : Store) : Type 0 where
  pub returned : row ≡ drafted_row c
  pub written : Drafted c s t

pub drafted-Saved :
    (c : Saving) (s t : Store) (row : ContractView)
    → reread c.contract_id (write_draft c s) ≡ ok (row, t)
    → Saved c s row t
drafted-Saved c s t row again =
    let (wrote, here) = reread_ok c.contract_id (write_draft c s) row t again in
    let (fresh, free, same) = write_draft_ok c s t wrote in
    let d = subst (Drafted c s) same (drafted_store-Drafted c s fresh free) in
    record {
      returned = ground (arith, d.contracts c.contract_id, ==_refl c.contract_id);
      written = d;
    }

pub save_cases :
    (p : Platform) (c : Saving) (s t : Store) (row : ContractView)
    → save_contract p c s ≡ ok (row, t)
    → (t ≡ s) ⊎ Saved c s row t
unfolding save_contract
save_cases p c s t row done =
    elim (Option-cases (saved_before (seen_by (truthy c.request_id) s) c s)) [
      | inl fresh ↦ inr (drafted-Saved c s t row (ground arith))
      | inr (old, before) ↦ inl (ground arith)
    ]

module _ (c : Saving) (s t : Store) (d : Drafted c s t) where
  kept-IsBehind : (x : Snapshot) → IsBehind s x → IsBehind t x
  kept-IsBehind x (row, here, le) = elim (Bool-cases (c.contract_id == x.contract_id)) [
    | inl same ↦
        let i : c.contract_id ≡ x.contract_id = ground arith in absurd (cc (here, d.fresh, i))
    | inr other ↦ (row, ground (arith, d.contracts x.contract_id), le)
  ]

  first-IsBehind : IsBehind t (first_snapshot c)
  unfolding drafted_row
  first-IsBehind =
      (drafted_row c, ground (arith, d.contracts c.contract_id, ==_refl c.contract_id), omega arith)

  first-IsCurrent : IsCurrent t c.contract_id (drafted_row c)
  unfolding drafted_row
  first-IsCurrent = (
    first_snapshot c,
    rw (d.snapshots) (
        ground (
          arith,
          find-append_one (snapshot_at c.contract_id c.revision) (first_snapshot c) s.snapshots,
          d.free,
          ==_refl c.contract_id,
          ==_refl c.revision,
        )),
    record {
      draft = refl;
      state = refl;
      deadline_status = refl;
      acceptance_status = refl;
      blocked_reason = refl;
    },
  )

  kept-IsCurrent : (k : Ident) (row : ContractView) → IsCurrent s k row → IsCurrent t k row
  kept-IsCurrent k row (y, there, agrees) = (
    y,
    rw (d.snapshots) (
        ground (
          arith,
          find-append_one (snapshot_at k row.revision) (first_snapshot c) s.snapshots,
          there,
        )),
    agrees,
  )

  drafted-IsCurrent :
      (k : Ident) (row : ContractView) → IsValid s → get_contract k t ≡ some row → IsCurrent t k row
  drafted-IsCurrent k row v here = elim (Bool-cases (c.contract_id == k)) [
    | inl same ↦
        let i : c.contract_id ≡ k = ground arith in
        let r : drafted_row c ≡ row = ground (arith, d.contracts k) in rw (← r, ← i) first-IsCurrent
    | inr other ↦ kept-IsCurrent k row (v.current_snapshot k row (ground (arith, d.contracts k)))
  ]

  pub Drafted-IsValid : IsValid s → IsValid t
  unfolding stored_event
  Drafted-IsValid v = record {
    snapshots_behind = subst (All (IsBehind t)) (sym d.snapshots) (
        All-append_one (IsBehind t) s.snapshots (first_snapshot c)
          (All-map s.snapshots kept-IsBehind v.snapshots_behind) first-IsBehind);
    current_snapshot = λ k row here. drafted-IsCurrent k row v here;
    ids_below =
        rw (d.events, d.next_event_id)
          (All-append_one (λ e. e.event_id < s.next_event_id + 1) s.events _
            (All-map s.events (λ e h. omega arith) v.ids_below) (omega arith));
  }
