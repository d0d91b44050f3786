-- ===== src/Store/Saving.antt =====
-- Drafting a contract (src/longtask/persistence/store.py, `save_contract`).
pub mod Update
use lhgp.Prelude.{
  ℕ, Bool, true, Option, none, some, List, [], ◌∷◌, ◌++◌, ◌==◌, nat_eq, ◌&&◌, if◌then◌else◌,
  or_else, is_some,
}
use lhgp.Prelude.Tables.{find, upsert}
use lhgp.Contracts.Axes.{ContractState, DeadlineStatus, AcceptanceStatus, BlockReason}
use lhgp.Contracts.Policies.{Ident, user, Instant, Json, Fields, ContractDraft}
use lhgp.Store.EventType.{EventType, event_eq}
use lhgp.Store.Types.{
  StoredEvent, ContractView, Snapshot, Goal, Store, Value, Result, ok, err, integrity_error,
  idempotency_mismatch, Action,
}
use lhgp.Store.Events.{NewEvent, append_event}
use lhgp.Store.Quiet.{Platform}
use lhgp.Store.Leases.{truthy, or_text, seen_by}
use lhgp.Store.Contracts.{is_contract, get_contract, write_revision_snapshot, reread}
use lhgp.Store.Drafts.{same_draft}

-- The arguments of `save_contract`.
pub record Saving : Type 0 where
  pub draft : ContractDraft
  pub contract_id : Ident
  pub now : Instant
  pub goal_id : Option Ident
  pub state : ContractState
  pub revision : ℕ
  pub next_wakeup_at : Option Instant
  pub blocked_reason : Option BlockReason
  pub deadline_status : DeadlineStatus
  pub acceptance_status : AcceptanceStatus
  pub next_decision_at : Option Instant
  pub request_id : Option Ident
  pub actor : Ident
  pub schema_version : ℕ

abbrev pub resolved_goal_id : Saving → Ident
resolved_goal_id c = or_text c.goal_id c.contract_id

-- The contract that the key was used for, which is not always the one that the call names.
abbrev pub is_prepared : StoredEvent → Bool
is_prepared e = e.event_type == EventType.contract_prepared && is_some (truthy e.contract_id)

abbrev owner_of : Option StoredEvent → Ident → Ident
owner_of none contract_id = contract_id
owner_of (some e) contract_id = or_text e.contract_id contract_id

abbrev pub saved_before : List StoredEvent → Saving → Store → Option ContractView
saved_before [] c s = none
saved_before (e ∷ es) c s = get_contract (owner_of (find is_prepared (e ∷ es)) c.contract_id) s

-- A goal that is there keeps all but the time of its update.
unfoldable pub goal_saved : Saving → List Goal → List Goal
goal_saved c =
    upsert (λ row. row.goal_id == resolved_goal_id c)
      (record {
        goal_id = resolved_goal_id c;
        revision = 1;
        title = c.draft.title;
        objective = c.draft.objective;
        plan = Fields.end;
        progress = Fields.end;
        created_at = c.now;
        updated_at = c.now;
        schema_version = c.schema_version;
      })
      (λ row. record row { updated_at = c.now })

unfoldable pub drafted_row : Saving → ContractView
drafted_row c = record {
  draft = c.draft;
  contract_id = c.contract_id;
  goal_id = resolved_goal_id c;
  revision = c.revision;
  state = c.state;
  deadline_status = c.deadline_status;
  acceptance_status = c.acceptance_status;
  created_at = c.now;
  updated_at = c.now;
  next_wakeup_at = c.next_wakeup_at;
  next_decision_at = c.next_decision_at;
  blocked_reason = c.blocked_reason;
}

abbrev pub first_snapshot : Saving → Snapshot
first_snapshot c = record {
  contract_id = c.contract_id;
  revision = c.revision;
  draft = c.draft;
  state = c.state;
  deadline_status = c.deadline_status;
  acceptance_status = c.acceptance_status;
  blocked_reason = c.blocked_reason;
  recorded_at = c.now;
  recorded_by = c.actor;
  change_reason = Value.event EventType.contract_prepared;
}

unfoldable pub prepared_event : Saving → NewEvent
prepared_event c = record {
  contract_id = some c.contract_id;
  event_type = EventType.contract_prepared;
  payload =
      ("actor", Value.id c.actor)
      ∷ ("title", Value.id c.draft.title)
      ∷ ("objective", Value.id c.draft.objective)
      ∷ ("state", Value.state c.state)
      ∷ ("goal_id", Value.id (resolved_goal_id c))
      ∷ ("deadline_status", Value.deadline c.deadline_status)
      ∷ ("acceptance_status", Value.acceptance c.acceptance_status)
      ∷ ("revision", Value.num c.revision)
      ∷ [];
  now = c.now;
  attempt_id = none;
  lease_generation = none;
  request_id = c.request_id;
  actor = c.actor;
  schema_version = c.schema_version;
  goal_id = some (resolved_goal_id c);
  contract_revision = some c.revision;
  role = some user;
  payload_schema_version = some c.schema_version;
}

-- The goal, the row, the snapshot and the event, in this order; the contract's id is its key.
unfoldable pub write_draft : Saving → Store → Result Store
write_draft c s = elim (find (is_contract c.contract_id) s.contracts) [
  | some _ ↦ err integrity_error
  | none ↦
      let s1 = record s {
        goals = goal_saved c s.goals;
        contracts = s.contracts ++ drafted_row c ∷ [];
      } in
      elim (write_revision_snapshot (first_snapshot c) s1) [
        | err e ↦ err e
        | ok s2 ↦ ok (append_event (prepared_event c) s2).1
      ]
]

unfoldable pub save_contract : Platform → Saving → Action ContractView
save_contract platform c s = elim (saved_before (seen_by (truthy c.request_id) s) c s) [
  | none ↦ reread c.contract_id (write_draft c s)
  | some row ↦
      if same_draft platform row.draft c.draft then ok (row, s) else err idempotency_mismatch
]
