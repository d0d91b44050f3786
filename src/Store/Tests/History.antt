-- ===== src/Store/Tests/History.antt =====
-- Examples of sequences of calls: a lease is acquired, its holder completes the contract, and the
-- completed contract is written again.
use lhgp.Prelude.{◌≡◌, refl, none, some, [], ◌∷◌}
use lhgp.Prelude.Tables.{find, update_where, upsert}
use lhgp.Contracts.Machine.{is_valid_transition}
use lhgp.Store.Requests.{replayed_events}
use lhgp.Store.Outbox.{enqueue_notification}
use lhgp.Store.Types.{Store, ok, err}
use lhgp.Store.Events.{append_event, get_events_by_request_id, stored_event}
use lhgp.Store.Quiet.{notification_kind}
use lhgp.Store.Leases.{get_lease, replayed_lease, acquire_lease, write_acquired, lease_event}
use lhgp.Store.Contracts.{
  get_contract, update_contract_state, changed, assert_legal_contract_transition,
  write_revision_snapshot, restamp, state_event, notify, write_change, change_current,
  state_payload, state_to_event,
}
use lhgp.Store.WriteBack.{
  WriteBackResult, write_back, check_fence, default_fence, record_report, log_events, append_inputs,
  bookkeeping_event, result_of,
}
use lhgp.Store.History.{Calls, Follows, none_yet, then_call, acquired, wrote_back, updated}
use lhgp.Store.Leases.Rows.{granted}
use lhgp.Store.Contracts.Invariant.{IsValid}
use lhgp.Store.History.Validity.{Calls-IsValid}
use lhgp.Store.Tests.Contracts.{store-IsValid}
use lhgp.Store.History.Log.{settled, log_append_only}
use lhgp.Store.Types.{StoredEvent}
use lhgp.Prelude.{map, List, ◌++◌}
use lhgp.Store.History.Rules.{contract_obeys_rules}
use lhgp.Store.Contracts.{StateChange}
use lhgp.Store.Types.{ContractView}
use lhgp.Store.Samples.{contract, completion, utc, store, call, report}

abbrev held : Store
unfolding write_acquired
held = write_acquired call 11 1 store

abbrev reported : Store
unfolding write_back
reported = elim (write_back utc report held) [ ok r ↦ r.1 | err e ↦ held ]

-- The acquisition is event 1, the change of state event 2, and the report itself event 3.
abbrev answer : WriteBackResult
answer = result_of report (3 ∷ []) (some 2)

abbrev again : StateChange
again = record completion { request_id = some 905; expected_revision = some 2 }

abbrev done_contract : ContractView
unfolding changed
done_contract = elim (get_contract 1 reported) [ some row ↦ row | none ↦ contract ]

abbrev rewritten : Store
unfolding update_contract_state
rewritten = elim (update_contract_state utc again reported) [ ok r ↦ r.1 | err e ↦ reported ]

through : Calls utc store reported
unfolding get_lease find replayed_lease get_events_by_request_id acquire_lease write_acquired
    append_event stored_event upsert lease_event write_back replayed_events check_fence
    default_fence record_report update_where update_contract_state get_contract change_current
    assert_legal_contract_transition is_valid_transition write_change restamp
    write_revision_snapshot state_event state_payload changed notify enqueue_notification
    notification_kind state_to_event log_events append_inputs bookkeeping_event
through =
    then_call (then_call none_yet (acquired call 11 0 (granted call 11 1) refl))
      (wrote_back report answer refl)

contract_obeys_rules_example :
    (b : ContractView) × (get_contract 1 reported ≡ some b) × Follows contract b
unfolding get_contract find
contract_obeys_rules_example = contract_obeys_rules utc 1 contract store reported through refl

once_more : Calls utc reported rewritten
unfolding get_lease find replayed_lease get_events_by_request_id acquire_lease write_acquired
    append_event stored_event upsert lease_event write_back replayed_events check_fence
    default_fence record_report update_where update_contract_state get_contract change_current
    assert_legal_contract_transition is_valid_transition write_change restamp
    write_revision_snapshot state_event state_payload changed notify enqueue_notification
    notification_kind state_to_event log_events append_inputs bookkeeping_event
once_more = then_call none_yet (updated again (changed again done_contract) refl)

Calls-IsValid_example : IsValid reported
Calls-IsValid_example = Calls-IsValid utc store reported through store-IsValid

log_append_only_example :
    (added : List StoredEvent) × (map settled rewritten.events
      ≡ map settled reported.events ++ added)
log_append_only_example = log_append_only utc reported rewritten once_more
