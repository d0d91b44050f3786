-- ===== src/Store/Tests/Leases.antt =====
-- Examples of the lease operations.
use lhgp.Prelude.{◌≡◌, refl, some, [], ◌∷◌}
use lhgp.Store.Types.{Value, ok, err, lease_cas}
use lhgp.Store.Events.{append_event, get_events_by_request_id, stored_event}
use lhgp.Prelude.Tables.{find, upsert}
use lhgp.Store.Leases.{
  get_lease, replayed_lease, acquire_lease, reclaim_lease, write_acquired, write_reclaimed,
  lease_event,
}
use lhgp.Store.Leases.Rows.{granted}
use lhgp.Store.Leases.Cas.{acquire_lease_lem, acquire_one_winner, reclaim_lease_lem}
use lhgp.Store.Leases.Replay.{acquire_lease_replay}
use lhgp.Store.Samples.{store, call, other_call}

acquire_lease_lem_example :
    acquire_lease call 11 0 store ≡ ok (granted call 11 1, write_acquired call 11 1 store)
unfolding get_lease find replayed_lease get_events_by_request_id
acquire_lease_lem_example = acquire_lease_lem call 11 0 store refl

acquire_one_winner_example :
    acquire_lease other_call 12 0 (write_acquired call 11 1 store) ≡ err lease_cas
unfolding get_lease find replayed_lease get_events_by_request_id acquire_lease write_acquired
    append_event stored_event upsert lease_event
acquire_one_winner_example =
    acquire_one_winner call other_call 11 12 0 store (write_acquired call 11 1 store)
      (granted call 11 1) refl refl refl refl

reclaim_lease_lem_example :
    reclaim_lease other_call (some 12) 1 Value.null (write_acquired call 11 1 store)
    ≡ ok (
      granted other_call 12 2,
      write_reclaimed other_call 11 12 2
          (("reason", Value.null) ∷ [])
          (write_acquired call 11 1 store),
    )
unfolding get_lease find replayed_lease get_events_by_request_id write_acquired append_event
    stored_event upsert lease_event
reclaim_lease_lem_example =
    reclaim_lease_lem other_call 12 1 Value.null (write_acquired call 11 1 store)
      (granted call 11 1) refl refl

acquire_lease_replay_example :
    acquire_lease call 12 0 (write_acquired call 11 1 store)
    ≡ ok (granted call 11 1, write_acquired call 11 1 store)
unfolding get_lease find replayed_lease get_events_by_request_id acquire_lease write_acquired
    append_event stored_event upsert lease_event
acquire_lease_replay_example =
    acquire_lease_replay call 11 12 0 0 900 store (write_acquired call 11 1 store)
      (granted call 11 1) refl refl
