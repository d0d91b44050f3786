-- ===== src/Store/History/Log.antt =====
-- The modelled calls only ever add to the event log (src/longtask/persistence/store.py, leases.py,
-- src/lhgp/persistence/events_query.py).
use mathlib.Core.Path.{subst}
use lhgp.Prelude.{ℕ, ◌≡◌, sym, Option, none, some, inl, inr, arith, nat_eq}
use lhgp.Contracts.Axes.{ContractState}
use lhgp.Store.Types.{ContractView, Store, Result-cases, ok}
use lhgp.Store.Quiet.{Platform}
use lhgp.Store.Contracts.{StateChange, update_contract_state}
use lhgp.Store.Attempts.Laws.{written}
use lhgp.Store.WriteBack.{
  WriteBack, WriteBackResult, write_back, change_of, change_state, record_report, log_events,
}
use lhgp.Store.Saving.{Saving}
use lhgp.Store.Saving.Update.{Drafted, save_cases}
use lhgp.Store.Patching.{Patch, set_terms, patched_event}
use lhgp.Store.Patching.Update.{Patched, patch_cases}
use lhgp.Store.History.{
  saved, patched, amended, Call, Calls, updated, wrote_back, acquired, reclaimed, renewed, released,
  attempted, none_yet, then_call,
}
use lhgp.Store.History.Keeps.{update_cases, write_back_cases}
use lhgp.Store.History.Aside.{
  patch_goal-IsAside, acquired-IsAside, reclaimed-IsAside, renewed-IsAside, released-IsAside,
  written-IsAside, record_report-IsAside, log_events-IsAside,
}
use lhgp.Store.History.Aside.{IsAside}
use lhgp.Store.Contracts.Update.{Updated}
use lhgp.Store.Contracts.{is_prior_approval, state_event}
use lhgp.Store.Events.{NewEvent, stored_event}
use lhgp.Store.Contracts.Revision.{Revised}
use lhgp.Store.Contracts.{set_columns, snapshot_of}
use lhgp.Store.Saving.{prepared_event}
use lhgp.Store.Patching.{patched_snapshot}
use lhgp.Store.Types.{Snapshot}
use lhgp.Prelude.{
  ◌+◌, refl, map, map_append, append_assoc, append_nil, List, [], ◌∷◌, ◌++◌, ◌==◌, if◌then◌else◌,
  ◌∙◌, arith, nat_eq,
}
use lhgp.Store.EventType.{EventType, event_eq}
use lhgp.Contracts.Policies.{Ident}
use lhgp.Store.Contracts.{restamp}
use lhgp.Prelude.Tables.{update_where}
use lhgp.Store.Types.{StoredEvent}

-- An event without the one field that may change: the revision of a plan approval.
abbrev pub settled : StoredEvent → StoredEvent
settled e =
    if e.event_type == EventType.plan_approved then record e { contract_revision = none } else e

abbrev pub Adds : Store → Store → Type 0
Adds s t = (added : List StoredEvent) × (map settled t.events ≡ map settled s.events ++ added)

Adds-refl : (s : Store) → Adds s s
Adds-refl s = ([], sym (append_nil (map settled s.events)))

Adds-trans : (s t u : Store) → Adds s t → Adds t u → Adds s u
Adds-trans s t u (a, e) (b, f) = (a ++ b, f ∙ rw e (append_assoc (map settled s.events) a b))

IsAside-Adds : (s t : Store) → IsAside s t → Adds s t
IsAside-Adds s t a = (map settled a.added, rw (a.log) (map_append settled s.events a.added))

settled_one :
    (cid : Ident) (n : ℕ) (e : StoredEvent)
    → settled (if is_prior_approval cid n e then record e { contract_revision = some n } else e)
      ≡ settled e
settled_one cid n e = ground arith

settled-restamp :
    (cid : Ident) (n : ℕ) (es : List StoredEvent) → map settled (restamp cid n es) ≡ map settled es
unfolding restamp update_where
settled-restamp cid n [] = refl
settled-restamp cid n (e ∷ es) = rw (settled_one cid n e, settled-restamp cid n es) refl

Revised-Adds :
    (cid : Ident) (f : ContractView → ContractView) (x : Snapshot) (n : NewEvent)
    (current : ContractView) (s t : Store)
    → Revised cid f x n current s t
    → Adds s t
Revised-Adds cid f x n current s t w =
    let rev = current.revision + 1 in
    let e = stored_event n s.next_event_id in
    (
      settled e ∷ [],
      rw (w.events) (
          map_append settled (restamp cid rev s.events) (e ∷ [])
          ∙ rw (settled-restamp cid rev s.events) refl),
    )

Drafted-Adds : (c : Saving) (s t : Store) → Drafted c s t → Adds s t
Drafted-Adds c s t d =
    let e = stored_event (prepared_event c) s.next_event_id in
    (settled e ∷ [], rw (d.events) (map_append settled s.events (e ∷ [])))

module _ (p : Platform) where
  Updated-Adds : (s t : Store) (c : StateChange) (row : ContractView) → Updated c s row t → Adds s t
  Updated-Adds s t c row u =
      Revised-Adds c.contract_id (set_columns c u.current) (snapshot_of c u.current)
        (state_event c u.current) u.current s t u.written

  Patched-Adds : (s t : Store) (c : Patch) (row : ContractView) → Patched c s row t → Adds s t
  Patched-Adds s t c row u =
      Revised-Adds c.contract_id (set_terms c u.current) (patched_snapshot c u.current)
        (patched_event c u.current) u.current s t u.written

  updated-Adds :
      (s t : Store) (c : StateChange) (row : ContractView)
      → update_contract_state p c s ≡ ok (row, t)
      → Adds s t
  updated-Adds s t c row done = elim (update_cases p s t c row done) [
    | inl same ↦ subst (Adds s) (sym same) (Adds-refl s)
    | inr u ↦ Updated-Adds s t c row u
  ]

  changed-Adds :
      (s t : Store) (w : WriteBack) (o : Option ContractState) (n : Option ℕ)
      → change_state p w o s ≡ ok (n, t)
      → Adds s t
  changed-Adds s t w none n done =
      let same : s ≡ t = ground arith in subst (Adds s) same (Adds-refl s)
  changed-Adds s t w (some c) n done =
      elim (Result-cases (update_contract_state p (change_of w c) s)) [
        | inl (e, bad) ↦ absurd (cc (done, bad))
        | inr ((row, u), good) ↦
            let same : u ≡ t = ground arith in
            subst (Adds s) same (updated-Adds s u (change_of w c) row good)
      ]

  wrote_back-Adds :
      (s t : Store) (w : WriteBack) (r : WriteBackResult) → write_back p w s ≡ ok (r, t) → Adds s t
  wrote_back-Adds s t w r done = elim (write_back_cases p s t w r done) [
    | inl same ↦ subst (Adds s) (sym same) (Adds-refl s)
    | inr d ↦
        let m = record_report p w s in
        let first = IsAside-Adds s m (record_report-IsAside p w s) in
        let middle = changed-Adds m d.middle w w.contract_state d.revision d.changed in
        let last =
          IsAside-Adds d.middle (log_events w d.middle).1 (log_events-IsAside w d.middle) in
        subst (Adds s) (sym d.after) (
          Adds-trans s d.middle (log_events w d.middle).1 (Adds-trans s m d.middle first middle)
            last)
  ]

  Call-Adds : (s t : Store) → Call p s t → Adds s t
  Call-Adds s t (updated c row done) = updated-Adds s t c row done
  Call-Adds s t (saved c row done) = elim (save_cases p c s t row done) [
    | inl same ↦ subst (Adds s) (sym same) (Adds-refl s)
    | inr u ↦ Drafted-Adds c s t u.written
  ]
  Call-Adds s t (patched c row done) = elim (patch_cases c s t row done) [
    | inl same ↦ subst (Adds s) (sym same) (Adds-refl s)
    | inr u ↦ Patched-Adds s t c row u
  ]
  Call-Adds s t (amended x c row done) = IsAside-Adds s t (patch_goal-IsAside x c s t row done)
  Call-Adds s t (wrote_back w r done) = wrote_back-Adds s t w r done
  Call-Adds s t (acquired c h g l done) = IsAside-Adds s t (acquired-IsAside c s h g l t done)
  Call-Adds s t (reclaimed c h g u l done) = IsAside-Adds s t (reclaimed-IsAside c s h g u l t done)
  Call-Adds s t (renewed c h g l done) = IsAside-Adds s t (renewed-IsAside c s h g l t done)
  Call-Adds s t (released c h g done) = IsAside-Adds s t (released-IsAside c s h g t done)
  Call-Adds s t (attempted w e) =
      subst (Adds s) (sym e) (IsAside-Adds s (written w s) (written-IsAside w s))

-- The modelled calls never delete an event and change none, the revision of plan approvals excepted:
-- after any sequence of them that return (drafts, patches, state changes, write backs, amendments of
-- goals, lease calls and attempt writes), the log begins with the events of before, in their order and
-- with every other field as it was. The pruning of the events of terminal contracts is not among these
-- calls.
pub log_append_only :
    (p : Platform) (s t : Store)
    → Calls p s t
    → (added : List StoredEvent) × (map settled t.events ≡ map settled s.events ++ added)
log_append_only p s t none_yet = Adds-refl s
log_append_only p s t (then_call {t = m} calls call) =
    Adds-trans s m t (log_append_only p s m calls) (Call-Adds p m t call)
