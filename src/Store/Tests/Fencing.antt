-- ===== src/Store/Tests/Fencing.antt =====
-- Examples of leases over several calls: attempt 11 has the lease first, then attempt 12 takes it over.
use lhgp.Prelude.{◌≡◌, refl, ◌≤◌, none, some, [], ◌∷◌, arith}
use lhgp.Prelude.Tables.{find, update_where, upsert}
use lhgp.Store.Types.{Store, Value, err, lease_fenced}
use lhgp.Store.Events.{append_event, get_events_by_request_id, stored_event}
use lhgp.Store.Leases.{
  get_lease, generation_of, replayed_lease, acquire_lease, reclaim_lease, write_acquired,
  write_reclaimed, lease_event,
}
use lhgp.Store.Leases.Rows.{granted}
use lhgp.Store.Leases.Fencing.{Steps, Step, generation_monotone, stale_writer_fenced}
use lhgp.Promoter.Lease.{check_write_fence}
use lhgp.Store.WriteBack.{write_back}
use lhgp.Store.WriteBack.Fence.{stale_write_back_refused}
use lhgp.Store.Samples.{utc, store, call, other_call, report}

abbrev first_held : Store
unfolding write_acquired
first_held = write_acquired call 11 1 store

abbrev taken_over : Store
unfolding write_reclaimed
taken_over = write_reclaimed other_call 11 12 2 (("reason", Value.null) ∷ []) first_held

taking_over : Steps 1 none first_held taken_over
unfolding get_lease find replayed_lease get_events_by_request_id acquire_lease reclaim_lease
    write_acquired write_reclaimed append_event stored_event upsert update_where lease_event
taking_over =
    Steps.next Steps.here
      (Step.reclaimed other_call (some 12) 1 Value.null (granted other_call 12 2) refl)

both : Steps 1 none store taken_over
unfolding get_lease find replayed_lease get_events_by_request_id acquire_lease reclaim_lease
    write_acquired write_reclaimed append_event stored_event upsert update_where lease_event
both =
    Steps.next (Steps.next Steps.here (Step.acquired call 11 0 (granted call 11 1) refl))
      (Step.reclaimed other_call (some 12) 1 Value.null (granted other_call 12 2) refl)

generation_monotone_example :
    generation_of (get_lease 1 none store) ≤ generation_of (get_lease 1 none taken_over)
generation_monotone_example = generation_monotone 1 none store taken_over both

stale_writer_fenced_example : check_write_fence (granted other_call 12 2) 0 11 ≡ err lease_fenced
unfolding get_lease find replayed_lease get_events_by_request_id acquire_lease reclaim_lease
    write_acquired write_reclaimed append_event stored_event upsert update_where lease_event
stale_writer_fenced_example =
    stale_writer_fenced 1 none first_held taken_over (granted call 11 1) (granted other_call 12 2) 0
      11 refl (omega arith) taking_over refl

stale_write_back_refused_example : write_back utc report taken_over ≡ err lease_fenced
unfolding get_lease find replayed_lease get_events_by_request_id acquire_lease reclaim_lease
    write_acquired write_reclaimed append_event stored_event upsert update_where lease_event
stale_write_back_refused_example =
    stale_write_back_refused utc report taken_over taken_over (granted other_call 12 2) refl refl
      refl (omega arith) Steps.here
