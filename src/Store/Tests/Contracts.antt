-- ===== src/Store/Tests/Contracts.antt =====
-- Examples of state changes of a contract.
use lhgp.Prelude.{ℕ, ◌≡◌, refl, ◌≤◌, some, [], ◌∷◌, arith}
use lhgp.Prelude.Tables.{find, update_where}
use lhgp.Contracts.Axes.{ContractState}
use lhgp.Contracts.Machine.{is_valid_transition}
use lhgp.Contracts.Policies.{NotifyKind, QuietHours}
use lhgp.Store.Requests.{replayed_events}
use lhgp.Store.Outbox.{enqueue_notification}
use lhgp.Store.Types.{Store, ContractView, ok, err, illegal_state_transition}
use lhgp.Store.Events.{append_event, get_events_by_request_id, stored_event}
use lhgp.Store.Quiet.{Steady, notification_kind, notification_available_at, notification_not_early}
use lhgp.Store.Contracts.{
  get_contract, update_contract_state, changed, assert_legal_contract_transition,
  write_revision_snapshot, restamp, state_event, notify, write_change, change_current,
  state_payload, state_to_event,
}
use lhgp.Store.Contracts.Invariant.{IsValid, Agrees}
use lhgp.Store.Contracts.Replay.{answer, answer-update_contract_state, update_contract_state_replay}
use lhgp.Store.Samples.{utc, store, contract, snapshot, completion, night_off}

only_contract :
    (cid : ℕ) (row : ContractView)
    → get_contract cid store ≡ some row
    → (contract ≡ row) × (1 ≡ cid)
unfolding get_contract find
only_contract cid row here = (ground arith, ground arith)

snapshot-Agrees : Agrees snapshot contract
snapshot-Agrees = record {
  draft = refl;
  state = refl;
  deadline_status = refl;
  acceptance_status = refl;
  blocked_reason = refl;
}

pub store-IsValid : IsValid store
unfolding get_contract find
store-IsValid = record {
  snapshots_behind = ((contract, refl, omega arith), tt);
  current_snapshot = λ cid row here.
      let (r, i) = only_contract cid row here in rw (← r, ← i) (snapshot, refl, snapshot-Agrees);
  ids_below = tt;
}

abbrev completed : Store
unfolding write_change restamp update_where write_revision_snapshot find append_event stored_event
    state_event state_payload notify enqueue_notification
completed = elim (write_change utc completion contract store) [ ok t ↦ t | err e ↦ store ]

answer-update_contract_state_example :
    answer
      (update_contract_state utc (record completion { new_state = ContractState.archived }) store)
    ≡ err illegal_state_transition
unfolding get_contract find get_events_by_request_id is_valid_transition
answer-update_contract_state_example =
    answer-update_contract_state utc (record completion { new_state = ContractState.archived })
      store store-IsValid refl

update_contract_state_replay_example :
    update_contract_state utc (record completion { new_state = ContractState.drafted }) completed
    ≡ ok (changed completion contract, completed)
unfolding get_contract find update_where update_contract_state replayed_events change_current
    assert_legal_contract_transition is_valid_transition write_change get_events_by_request_id
    restamp write_revision_snapshot append_event stored_event state_event state_payload changed
    notify enqueue_notification notification_kind state_to_event
update_contract_state_replay_example =
    update_contract_state_replay utc completion
      (record completion { new_state = ContractState.drafted }) store completed
      (changed completion contract) 902 refl refl refl refl

utc-Steady : Steady utc
unfolding Steady
utc-Steady zone now day time later_day later here after = ground arith

-- The window is from 22:30 to 08:00.
abbrev night : QuietHours
night = record {
  start = b'2' ∷ b'2' ∷ b':' ∷ b'3' ∷ b'0' ∷ [];
  end_at = b'0' ∷ b'8' ∷ b':' ∷ b'0' ∷ b'0' ∷ [];
  timezone = 61;
}

notification_not_early_example :
    84600000000
    ≤ notification_available_at utc
        (record night_off { quiet_hours = some night })
        NotifyKind.satisfied
        84600000000
notification_not_early_example =
    notification_not_early utc (record night_off { quiet_hours = some night }) NotifyKind.satisfied
      84600000000 utc-Steady
