-- ===== src/Store/Patching.antt =====
-- Revising a contract's soft terms (src/longtask/persistence/store.py, `patch_contract`).
pub mod Update
pub mod Answer
use lhgp.Prelude.{
  ℕ, ◌+◌, Bool, Option, none, some, List, [], ◌∷◌, ◌++◌, ◌==◌, nat_eq, not, if◌then◌else◌, or_else,
}
use lhgp.Prelude.Tables.{update_where}
use lhgp.Contracts.Policies.{Ident, Instant, Json, Acceptance, ContractDraft}
use lhgp.Store.EventType.{EventType}
use lhgp.Store.Types.{
  ContractView, Snapshot, Store, Payload, Value, Result, ok, err, store_error, revision_conflict,
  Action,
}
use lhgp.Store.Events.{NewEvent, append_event}
use lhgp.Store.Requests.{replayed_events}
use lhgp.Store.Contracts.{
  is_contract, get_contract, write_revision_snapshot, restamp, reread, replay_view,
}

-- The keyword arguments of `patch_contract`.
pub record Patch : Type 0 where
  pub contract_id : Ident
  pub expected_revision : ℕ
  pub now : Instant
  pub soft_guidance : Option Json
  pub acceptance : Option Acceptance
  pub workload_initial_hours : Option ℕ
  pub request_id : Option Ident
  pub actor : Ident
  pub schema_version : ℕ

-- `dataclasses.replace`: the three terms, and no other.
abbrev pub patched_draft : Patch → ContractDraft → ContractDraft
patched_draft c draft = record draft {
  acceptance = or_else c.acceptance draft.acceptance;
  soft_guidance = or_else c.soft_guidance draft.soft_guidance;
  workload_initial_hours = or_else c.workload_initial_hours draft.workload_initial_hours;
}

-- The UPDATE on a row of the table, with the values of the row that was read; it keeps the other
-- columns.
abbrev pub set_terms : Patch → ContractView → ContractView → ContractView
set_terms c current row = record row {
  revision = current.revision + 1;
  draft = record row.draft {
    soft_guidance = or_else c.soft_guidance current.draft.soft_guidance;
    acceptance = or_else c.acceptance current.draft.acceptance;
    workload_initial_hours = or_else c.workload_initial_hours current.draft.workload_initial_hours;
  };
  updated_at = c.now;
}

abbrev pub patched_snapshot : Patch → ContractView → Snapshot
patched_snapshot c current = record {
  contract_id = c.contract_id;
  revision = current.revision + 1;
  draft = patched_draft c current.draft;
  state = current.state;
  deadline_status = current.deadline_status;
  acceptance_status = current.acceptance_status;
  blocked_reason = current.blocked_reason;
  recorded_at = c.now;
  recorded_by = c.actor;
  change_reason = Value.event EventType.contract_patched;
}

abbrev guidance_entry : Option Json → Payload
guidance_entry none = []
guidance_entry (some g) = ("soft_guidance", Value.json g) ∷ []

abbrev acceptance_entry : Option Acceptance → Payload
acceptance_entry none = []
acceptance_entry (some a) = ("acceptance", Value.terms a.standard a.checks a.verifier) ∷ []

abbrev workload_entry : Option ℕ → Payload
workload_entry none = []
workload_entry (some h) = ("workload_initial_hours", Value.num h) ∷ []

unfoldable pub patched_event : Patch → ContractView → NewEvent
patched_event c current = record {
  contract_id = some c.contract_id;
  event_type = EventType.contract_patched;
  payload =
      ("actor", Value.id c.actor)
      ∷ ("revision", Value.num (current.revision + 1))
      ∷ (guidance_entry c.soft_guidance
          ++ (acceptance_entry c.acceptance ++ workload_entry c.workload_initial_hours));
  now = c.now;
  attempt_id = none;
  lease_generation = none;
  request_id = c.request_id;
  actor = c.actor;
  schema_version = c.schema_version;
  goal_id = some current.goal_id;
  contract_revision = some (current.revision + 1);
  role = some c.actor;
  payload_schema_version = some c.schema_version;
}

-- The row, the snapshot, the event, and then the approvals of earlier revisions, which are carried over.
unfoldable pub write_patch : Patch → ContractView → Store → Result Store
write_patch c current s =
    let s1 = record s {
      contracts = update_where (is_contract c.contract_id) (set_terms c current) s.contracts;
    } in
    elim (write_revision_snapshot (patched_snapshot c current) s1) [
      | err e ↦ err e
      | ok s2 ↦
          let (event, s3) = append_event (patched_event c current) s2 in
          ok (record s3 { events = restamp c.contract_id (current.revision + 1) s3.events })
    ]

unfoldable pub patch_current : Patch → Option ContractView → Action ContractView
patch_current c none s = err store_error
patch_current c (some current) s =
    if not (current.revision == c.expected_revision)
    then err revision_conflict
    else reread c.contract_id (write_patch c current s)

unfoldable pub patch_contract : Patch → Action ContractView
patch_contract c s = elim (replayed_events c.request_id c.contract_id s) [
  | err e ↦ err e
  | ok existing ↦ elim (replay_view existing (get_contract c.contract_id s)) [
    | some row ↦ ok (row, s)
    | none ↦ patch_current c (get_contract c.contract_id s) s
  ]
]
