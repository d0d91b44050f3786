-- ===== src/Store/Tests/Authorizing.antt =====
-- Examples of approval without the user: a draft that claims an action that its goal grants.
use lhgp.Prelude.{◌≡◌, refl, true, [], ◌∷◌}
use lhgp.Prelude.Tables.{find, update_where}
use lhgp.Contracts.Axes.{ContractState}
use lhgp.Contracts.Machine.{is_valid_transition}
use lhgp.Contracts.Policies.{Json, Items, Fields}
use lhgp.Contracts.Dicts.{get}
use lhgp.Contracts.Exchange.Keys.{enabled_key, actions_key}
use lhgp.Store.Requests.{replayed_events}
use lhgp.Store.Outbox.{enqueue_notification}
use lhgp.Store.Types.{Goal, Store, ContractView, ok, err}
use lhgp.Store.Events.{append_event, stored_event}
use lhgp.Store.Quiet.{notification_kind}
use lhgp.Store.Contracts.{
  get_contract, update_contract_state, changed, assert_legal_contract_transition,
  write_revision_snapshot, restamp, state_event, notify, write_change, change_current,
  state_payload, state_to_event,
}
use lhgp.Store.Samples.{utc, store, contract}
use lhgp.Goals.Progress.{Texts}
use lhgp.Goals.Amending.{get_goal}
use lhgp.Goals.Authorizing.{
  pre_authorized_key, approval_of, auto_approve_drafted_contract, goal_pre_authorizes_contract,
  grant_clears,
}
use lhgp.Goals.Authorizing.Authority.{
  IsAuthorized, IsCurrent, auto_approve_drafted_contract-IsAuthorized,
}

abbrev texts : Texts
texts = record { shown = λ v. 90; strip = λ x. x; letters = λ x. x ∷ [] }

abbrev grant : Fields
grant =
    Fields.field enabled_key (Json.bool true)
      (Fields.field actions_key (Json.arr (Items.cons (Json.text 81) Items.nil)) Fields.end)

abbrev goal : Goal
goal = record {
  goal_id = 2;
  revision = 1;
  title = 70;
  objective = 71;
  plan = Fields.field pre_authorized_key (Json.obj grant) Fields.end;
  progress = Fields.end;
  created_at = 1;
  updated_at = 1;
  schema_version = 6;
}

abbrev draft : ContractView
draft = record contract {
  state = ContractState.drafted;
  draft = record contract.draft {
    auto_approve = record {
      enabled = true;
      actions = 81 ∷ [];
      max_budget_increment = 0;
      max_spec_changes = 0;
    };
  };
}

abbrev drafts : Store
drafts = record store { goals = goal ∷ []; contracts = draft ∷ [] }

abbrev approved : Store
unfolding auto_approve_drafted_contract
approved = elim (auto_approve_drafted_contract utc texts draft 50 drafts) [
  | ok r ↦ r.1
  | err e ↦ drafts
]

auto_approve_drafted_contract-IsAuthorized_example :
    (draft.state ≡ ContractState.drafted)
    × IsAuthorized texts draft 50 drafts
    × IsCurrent draft drafts
    × ((row : ContractView) × (update_contract_state utc (approval_of draft 50) drafts
          ≡ ok (row, approved))
        × (row.state ≡ ContractState.active))
unfolding auto_approve_drafted_contract goal_pre_authorizes_contract grant_clears get_goal get
    get_contract find update_where update_contract_state replayed_events change_current
    assert_legal_contract_transition is_valid_transition write_change restamp
    write_revision_snapshot append_event stored_event state_event state_payload changed notify
    enqueue_notification notification_kind state_to_event
auto_approve_drafted_contract-IsAuthorized_example =
    auto_approve_drafted_contract-IsAuthorized utc texts draft 50 drafts approved refl
