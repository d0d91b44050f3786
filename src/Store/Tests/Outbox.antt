-- ===== src/Store/Tests/Outbox.antt =====
-- Examples of the outbox: one notification that is claimed, and a round of deliveries of two.
use lhgp.Prelude.{
  ◌≡◌, ◌+◌, refl, none, some, [], ◌∷◌, All, false, arith, contains, length, filter, not, is_some,
  nat_eq, ◌==◌, if◌then◌else◌,
}
use lhgp.Prelude.Tables.{find, update_where}
use lhgp.Contracts.Policies.{NotifyKind}
use lhgp.Store.Types.{Notification, Store}
use lhgp.Store.Outbox.{
  Notice, Channel, new_row, lease_row, seconds, enqueue_notification, is_due, lease_all,
  list_by_ids, due_ids, claim, claim_notifications, is_notice, mark_sent, mark_failed, deliver_all,
  drain_notifications,
}
use lhgp.Store.Outbox.Leasing.{ids_of, claimed_once}
use lhgp.Store.Outbox.Draining.{IsAnswered, drain_settles}
use lhgp.Store.Samples.{store}

abbrev notice : Notice
notice = record {
  contract_id = 1;
  event_id = 4;
  goal_id = 2;
  event_type = NotifyKind.satisfied;
  payload = [];
  available_at = 100;
  now = 90;
}

abbrev queued : Store
unfolding enqueue_notification find
queued = enqueue_notification notice store

abbrev claimed : Store
unfolding claim
claimed = claim 100 300 5 queued

abbrev leased : Notification
leased = lease_row 100 (100 + seconds 300) (new_row notice 1)

claimed_once_example :
    All (λ (r : Notification). contains r.notification_id (ids_of (leased ∷ [])) ≡ false) []
unfolding claim claim_notifications enqueue_notification find due_ids is_due lease_all list_by_ids
    update_where
claimed_once_example =
    claimed_once queued claimed claimed 100 200 300 5 300 5 (leased ∷ []) [] refl refl (omega arith)

-- A second notification, of another event.
abbrev both_queued : Store
unfolding enqueue_notification find
both_queued = enqueue_notification (record notice { event_id = 5 }) queued

abbrev second : Notification
second = lease_row 100 (100 + seconds 300) (new_row (record notice { event_id = 5 }) 2)

-- The channel accepts the first notification and refuses the second.
abbrev flaky : Channel
flaky row = if row.event_id == 4 then none else some 81

abbrev drained : Store
unfolding claim mark_sent mark_failed
drained = mark_failed 2 100 81 (100 + seconds 60) (mark_sent 1 100 (claim 100 300 5 both_queued))

drain_settles_example :
    All
      (λ x.
        IsAnswered flaky
          (100 + seconds 60)
          (find (is_notice x.notification_id) (leased ∷ second ∷ []))
          x)
      drained.outbox
    × (1 ≡ length (filter (λ r. not (is_some (flaky r))) (leased ∷ second ∷ [])))
unfolding claim claim_notifications enqueue_notification find due_ids is_due lease_all list_by_ids
    update_where drain_notifications deliver_all mark_sent mark_failed
drain_settles_example =
    drain_settles flaky 100 5 60 1 both_queued (claim 100 300 5 both_queued) drained
      (leased ∷ second ∷ []) refl refl
