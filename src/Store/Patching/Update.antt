-- ===== src/Store/Patching/Update.antt =====
-- What `patch_contract` does when it returns (src/longtask/persistence/store.py).
use lhgp.Prelude.{
  ◌+◌, ◌≡◌, refl, ◌⊎◌, inl, inr, none, some, List, [], ◌∷◌, ◌++◌, nat_eq, arith, Option-cases,
  List-cases, ==_refl,
}
use lhgp.Prelude.Tables.{find, update_where}
use lhgp.Contracts.Policies.{Ident}
use lhgp.Store.EventType.{event_eq}
use lhgp.Store.Types.{StoredEvent, ContractView, Snapshot, Store, ok, err, integrity_error}
use lhgp.Store.Events.{append_event, stored_event}
use lhgp.Store.Requests.{replayed_events}
use lhgp.Store.Leases.{truthy, seen_by}
use lhgp.Store.Contracts.{
  is_contract, get_contract, snapshot_at, restamp, write_revision_snapshot, reread,
}
use lhgp.Store.Contracts.Revision.{Revised, find_contract}
use lhgp.Store.Contracts.Update.{reread_ok}
use lhgp.Store.Contracts.Invariant.{IsValid, Revised-IsValid}
use lhgp.Store.Patching.{
  Patch, set_terms, patched_snapshot, patched_event, write_patch, patch_current, patch_contract,
}

-- The tables after the writes of a patch.
abbrev pub IsPatched : Patch → ContractView → Store → Store → Type 0
IsPatched c current s t =
    Revised c.contract_id (set_terms c current) (patched_snapshot c current)
      (patched_event c current) current s t

-- A patch is no approval.
restamp-append_patch :
    (c : Patch) (current : ContractView) (k : Ident) (r n : _) (es : List StoredEvent)
    → restamp k r (es ++ stored_event (patched_event c current) n ∷ [])
      ≡ restamp k r es ++ stored_event (patched_event c current) n ∷ []
unfolding restamp update_where stored_event patched_event
restamp-append_patch c current k r n [] = ground arith
restamp-append_patch c current k r n (e ∷ es) = rw (restamp-append_patch c current k r n es) refl

abbrev pub patched_store : Patch → ContractView → Store → Store
patched_store c current s = record s {
  contracts = update_where (is_contract c.contract_id) (set_terms c current) s.contracts;
  snapshots = s.snapshots ++ patched_snapshot c current ∷ [];
  events =
      restamp c.contract_id (current.revision + 1)
        (s.events ++ stored_event (patched_event c current) s.next_event_id ∷ []);
  next_event_id = s.next_event_id + 1;
}

pub patched_store-IsPatched :
    (c : Patch) (current : ContractView) (s : Store)
    → IsPatched c current s (patched_store c current s)
unfolding get_contract
patched_store-IsPatched c current s = record {
  contracts = λ cid. find_contract c.contract_id cid (set_terms c current) s.contracts (λ x h. h);
  snapshots = refl;
  events =
      restamp-append_patch c current c.contract_id (current.revision + 1) s.next_event_id s.events;
  next_event_id = refl;
  leases = refl;
  attempts = refl;
}

pub write_patch_free :
    (c : Patch) (current : ContractView) (s : Store)
    → find (snapshot_at c.contract_id (current.revision + 1)) s.snapshots ≡ none
    → write_patch c current s ≡ ok (patched_store c current s)
unfolding write_patch write_revision_snapshot append_event
write_patch_free c current s free = rw (free, write_patch, write_revision_snapshot) refl

write_patch_taken :
    (c : Patch) (current : ContractView) (s : Store) (x : Snapshot)
    → find (snapshot_at c.contract_id (current.revision + 1)) s.snapshots ≡ some x
    → write_patch c current s ≡ err integrity_error
unfolding write_patch write_revision_snapshot append_event
write_patch_taken c current s x taken = rw (taken, write_patch, write_revision_snapshot) refl

write_patch-IsPatched :
    (c : Patch) (current : ContractView) (s t : Store)
    → write_patch c current s ≡ ok t
    → IsPatched c current s t
write_patch-IsPatched c current s t done =
    elim (Option-cases (find (snapshot_at c.contract_id (current.revision + 1)) s.snapshots)) [
      | inl free ↦
          let same : patched_store c current s ≡ t = cc (write_patch_free c current s free, done) in
          rw same at (patched_store-IsPatched c current s)
      | inr (x, taken) ↦ absurd (cc (write_patch_taken c current s x taken, done))
    ]

-- What a patch that is no replay has done when it returns.
pub record Patched (c : Patch) (s : Store) (row : ContractView) (t : Store) : Type 0 where
  pub current : ContractView
  pub found : get_contract c.contract_id s ≡ some current
  pub expected : current.revision ≡ c.expected_revision
  pub returned : row ≡ set_terms c current current
  pub written : IsPatched c current s t

patch_current_ok :
    (c : Patch) (current row : ContractView) (s t : Store)
    → patch_current c (some current) s ≡ ok (row, t)
    → (current.revision ≡ c.expected_revision)
      × (reread c.contract_id (write_patch c current s) ≡ ok (row, t))
unfolding patch_current
patch_current_ok c current row s t h = (ground arith, ground arith)

current-Patched :
    (c : Patch) (s t : Store) (current row : ContractView)
    → get_contract c.contract_id s ≡ some current
    → patch_current c (some current) s ≡ ok (row, t)
    → Patched c s row t
current-Patched c s t current row found done =
    let (exp, again) = patch_current_ok c current row s t done in
    let (wrote, here) = reread_ok c.contract_id (write_patch c current s) row t again in
    let w = write_patch-IsPatched c current s t wrote in
    record {
      current = current;
      found = found;
      expected = exp;
      returned = ground (arith, w.contracts c.contract_id, ==_refl c.contract_id);
      written = w;
    }

pub patch_fresh :
    (c : Patch) (s : Store)
    → seen_by (truthy c.request_id) s ≡ []
    → patch_contract c s ≡ patch_current c (get_contract c.contract_id s) s
unfolding patch_contract replayed_events
patch_fresh c s fresh = rw (fresh, patch_contract, replayed_events) refl

fresh-Patched :
    (c : Patch) (s t : Store) (row : ContractView)
    → seen_by (truthy c.request_id) s ≡ []
    → patch_contract c s ≡ ok (row, t)
    → Patched c s row t
unfolding patch_current
fresh-Patched c s t row fresh done = elim (Option-cases (get_contract c.contract_id s)) [
  | inl missing ↦ absurd (ground (arith, patch_fresh c s fresh))
  | inr (current, found) ↦ current-Patched c s t current row found (cc (patch_fresh c s fresh))
]

seen_patch :
    (c : Patch) (s t : Store) (row : ContractView) (e : StoredEvent) (es : List StoredEvent)
    → seen_by (truthy c.request_id) s ≡ e ∷ es
    → patch_contract c s ≡ ok (row, t)
    → (get_contract c.contract_id s ≡ some row) × (t ≡ s)
unfolding patch_contract replayed_events patch_current
seen_patch c s t row e es seen done = elim (Option-cases (get_contract c.contract_id s)) [
  | inl missing ↦ (ground arith, ground arith)
  | inr (old, found) ↦ (ground arith, ground arith)
]

pub patch_cases :
    (c : Patch) (s t : Store) (row : ContractView)
    → patch_contract c s ≡ ok (row, t)
    → (t ≡ s) ⊎ Patched c s row t
patch_cases c s t row done = elim (List-cases (seen_by (truthy c.request_id) s)) [
  | inl fresh ↦ inr (fresh-Patched c s t row fresh done)
  | inr (e, es, seen) ↦ inl (seen_patch c s t row e es seen done).1
]

pub Patched-IsValid :
    (c : Patch) (s t : Store) (row : ContractView) → Patched c s row t → IsValid s → IsValid t
Patched-IsValid c s t row u =
    Revised-IsValid c.contract_id (set_terms c u.current) (patched_snapshot c u.current)
      (patched_event c u.current) u.current s t u.found u.written
      (record {
        own = refl;
        next = refl;
        row = refl;
        agrees = record {
          draft = refl;
          state = refl;
          deadline_status = refl;
          acceptance_status = refl;
          blocked_reason = refl;
        };
      })
