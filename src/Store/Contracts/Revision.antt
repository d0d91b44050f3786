-- ===== src/Store/Contracts/Revision.antt =====
-- What a write of the next revision of a contract leaves in the tables
-- (src/longtask/persistence/store.py, `update_contract_state`, `patch_contract`).
use mathlib.Core.Option
use lhgp.Prelude.{
  ◌+◌, ◌≡◌, inl, inr, Bool-cases, true, List, [], ◌∷◌, ◌++◌, ◌==◌, nat_eq, if◌then◌else◌, arith,
}
use lhgp.Prelude.Tables.{find, update_where, find-update_self, find-update_other}
use lhgp.Contracts.Policies.{Ident}
use lhgp.Store.Types.{ContractView, Snapshot, Store}
use lhgp.Store.Events.{NewEvent, stored_event}
use lhgp.Store.Contracts.{is_contract, get_contract, restamp}

-- The contract's row is rewritten, its approvals are carried over to the next revision, and one
-- snapshot and one event are added; every other contract, lease and attempt is as it was.
pub record Revised (cid : Ident) (f : ContractView → ContractView) (x : Snapshot) (e : NewEvent)
    (current : ContractView) (s t : Store) : Type 0 where
  pub contracts :
      (k : Ident)
      → get_contract k t ≡ (if cid == k then Option.map f (get_contract k s) else get_contract k s)
  pub snapshots : t.snapshots ≡ s.snapshots ++ x ∷ []
  pub events :
      t.events ≡ restamp cid (current.revision + 1) s.events ++ stored_event e s.next_event_id ∷ []
  pub next_event_id : t.next_event_id ≡ s.next_event_id + 1
  pub leases : t.leases ≡ s.leases
  pub attempts : t.attempts ≡ s.attempts

pub find_contract :
    (a cid : Ident) (f : ContractView → ContractView) (rows : List ContractView)
    → ((x : ContractView) → is_contract a x ≡ true → is_contract a (f x) ≡ true)
    → find (is_contract cid) (update_where (is_contract a) f rows) ≡ (
        if a == cid
        then Option.map f (find (is_contract cid) rows)
        else find (is_contract cid) rows)
find_contract a cid f rows keep = elim (Bool-cases (a == cid)) [
  | inl eq ↦
      let e : a ≡ cid = ground arith in rw (eq, ← e) (find-update_self (is_contract a) f rows keep)
  | inr ne ↦ rw ne (
      find-update_other (is_contract a) (is_contract cid) f rows (λ x h. ground arith)
        (λ x h. ground (arith, keep x)))
]
