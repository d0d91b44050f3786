-- ===== src/Store/Tests/Drafting.antt =====
-- Examples of drafting and of patching: a second contract is drafted, and the first one is patched.
use lhgp.Prelude.{none, some}
use lhgp.Prelude.Tables.{find, update_where, upsert}
use lhgp.Contracts.Axes.{ContractState, DeadlineStatus, AcceptanceStatus}
use lhgp.Store.Types.{ContractView, Store, ok, err}
use lhgp.Store.Events.{append_event, get_events_by_request_id, stored_event}
use lhgp.Store.Contracts.{get_contract, write_revision_snapshot}
use lhgp.Store.Saving.{Saving, save_contract, write_draft, goal_saved, drafted_row, prepared_event}
use lhgp.Store.Patching.{Patch, set_terms, patch_contract}
use lhgp.Store.Samples.{utc, store, contract}

abbrev drafting : Saving
drafting = record {
  draft = contract.draft;
  contract_id = 2;
  now = 12;
  goal_id = none;
  state = ContractState.drafted;
  revision = 1;
  next_wakeup_at = none;
  blocked_reason = none;
  deadline_status = DeadlineStatus.not_due;
  acceptance_status = AcceptanceStatus.pending;
  next_decision_at = none;
  request_id = some 910;
  actor = 3;
  schema_version = 1;
}

-- The same key with another title.
abbrev retitled : Saving
retitled = record drafting { draft = record contract.draft { title = 78 }; contract_id = 5 }

abbrev drafted : Store
unfolding save_contract write_draft goal_saved upsert find update_where write_revision_snapshot
    append_event stored_event prepared_event
drafted = elim (save_contract utc drafting store) [ ok r ↦ r.1 | err e ↦ store ]

abbrev patch : Patch
patch = record {
  contract_id = 1;
  expected_revision = 1;
  now = 14;
  soft_guidance = none;
  acceptance = none;
  workload_initial_hours = some 9;
  request_id = some 911;
  actor = 3;
  schema_version = 1;
}

-- The new contract is patched, so its draft is no longer the one that was saved.
abbrev patching : Patch
patching = record patch { contract_id = 2; request_id = some 912 }

abbrev patched_row : ContractView
patched_row = set_terms patching (drafted_row drafting) (drafted_row drafting)

abbrev patched_store : Store
unfolding patch_contract get_contract find update_where write_revision_snapshot append_event
    stored_event prepared_event get_events_by_request_id drafted_row save_contract write_draft
    goal_saved upsert
patched_store = elim (patch_contract patching drafted) [ ok r ↦ r.1 | err e ↦ drafted ]
