-- ===== src/Store/Tests/WriteBack.antt =====
-- Examples of writing back: the first attempt completes the contract.
use lhgp.Prelude.{◌≡◌, refl, none, some, [], ◌∷◌}
use lhgp.Prelude.Tables.{find, update_where, upsert}
use lhgp.Contracts.Machine.{is_valid_transition}
use lhgp.Store.Requests.{replayed_events}
use lhgp.Store.Outbox.{enqueue_notification}
use lhgp.Store.Types.{StoredLease, Store, ok, err}
use lhgp.Store.Events.{append_event, get_events_by_request_id, stored_event}
use lhgp.Store.Quiet.{notification_kind}
use lhgp.Store.Leases.{get_lease, replayed_lease, acquire_lease, write_acquired, lease_event}
use lhgp.Store.Contracts.{
  get_contract, update_contract_state, changed, assert_legal_contract_transition,
  write_revision_snapshot, restamp, state_event, notify, write_change, change_current,
  state_payload, state_to_event,
}
use lhgp.Store.WriteBack.{
  WriteBackResult, write_back, check_fence, default_fence, record_report, log_events, append_inputs,
  bookkeeping_event, result_of,
}
use lhgp.Store.WriteBack.Fence.{write_back_by_holder}
use lhgp.Store.WriteBack.Replay.{write_back_replay}
use lhgp.Store.Samples.{utc, store, call, report}

abbrev held : Store
unfolding write_acquired
held = write_acquired call 11 1 store

abbrev reported : Store
unfolding write_back
reported = elim (write_back utc report held) [ ok r ↦ r.1 | err e ↦ held ]

-- The acquisition is event 1, the change of state event 2, and the report itself event 3.
abbrev answer : WriteBackResult
answer = result_of report (3 ∷ []) (some 2)

write_back_by_holder_example :
    (l : StoredLease) × (get_lease 1 none held ≡ some l)
    × (l.generation ≡ 1)
    × (l.holder_attempt_id ≡ 11)
    × (reported.leases ≡ held.leases)
unfolding get_lease find replayed_lease get_events_by_request_id acquire_lease write_acquired
    append_event stored_event upsert lease_event write_back replayed_events check_fence
    default_fence record_report update_where update_contract_state get_contract change_current
    assert_legal_contract_transition is_valid_transition write_change restamp
    write_revision_snapshot state_event state_payload changed notify enqueue_notification
    notification_kind state_to_event log_events append_inputs bookkeeping_event
write_back_by_holder_example = write_back_by_holder utc report held reported answer refl refl refl

write_back_replay_example :
    write_back utc (record report { attempt_id = 99 }) reported
    ≡ ok (result_of (record report { attempt_id = 99 }) (3 ∷ []) (some 2), reported)
unfolding get_lease find replayed_lease get_events_by_request_id acquire_lease write_acquired
    append_event stored_event upsert lease_event write_back replayed_events check_fence
    default_fence record_report update_where update_contract_state get_contract change_current
    assert_legal_contract_transition is_valid_transition write_change restamp
    write_revision_snapshot state_event state_payload changed notify enqueue_notification
    notification_kind state_to_event log_events append_inputs bookkeeping_event
write_back_replay_example =
    write_back_replay utc report (record report { attempt_id = 99 }) held reported answer 903 refl
      refl refl refl tt refl
