-- ===== src/Store/Outbox.antt =====
-- The outbox (src/longtask/persistence/notifications.py).
pub mod Leasing
pub mod Draining
use lhgp.Prelude.{
  ℕ, ◌+◌, ◌*◌, zero, suc, Bool, true, false, Option, none, some, List, [], ◌∷◌, ◌++◌, ◌==◌, nat_eq,
  ◌&&◌, ◌||◌, map, filter, contains, leb, ltb, if◌then◌else◌, not,
}
use lhgp.Prelude.Tables.{find, update_where, delete_where}
use lhgp.Contracts.Policies.{Ident, Instant, Span, NotifyKind}
use lhgp.Store.Types.{
  Notification, NoticeStatus, Store, Payload, Result, ok, err, value_error, Action,
}

-- The arguments of `enqueue_notification`.
pub record Notice : Type 0 where
  pub contract_id : Ident
  pub event_id : ℕ
  pub goal_id : Ident
  pub event_type : NotifyKind
  pub payload : Payload
  pub available_at : Instant
  pub now : Instant

abbrev pub same_notice : Ident → ℕ → Notification → Bool
same_notice contract_id event_id row = row.contract_id == contract_id && row.event_id == event_id

abbrev pub new_row : Notice → ℕ → Notification
new_row n notification_id = record {
  notification_id = notification_id;
  contract_id = n.contract_id;
  event_id = n.event_id;
  goal_id = n.goal_id;
  event_type = n.event_type;
  payload = n.payload;
  available_at = n.available_at;
  status = NoticeStatus.pending;
  attempts = 0;
  lease_until = none;
  last_error = none;
  created_at = n.now;
  updated_at = n.now;
}

-- A second row for one idempotency key is not written; `notification_id` is AUTOINCREMENT.
unfoldable pub enqueue_notification : Notice → Store → Store
enqueue_notification n s = elim (find (same_notice n.contract_id n.event_id) s.outbox) [
  | some _ ↦ s
  | none ↦ record s {
    outbox = s.outbox ++ new_row n s.next_notification_id ∷ [];
    next_notification_id = s.next_notification_id + 1;
  }
]

-- The source compares the texts of the times, in ISO format, and the model the times themselves: the
-- two agree where all times are written with one offset from UTC, as those of the daemon are.
abbrev pub has_lapsed : Option Instant → Instant → Bool
has_lapsed none now = false
has_lapsed (some lease_until) now = leb lease_until now

-- A pending row that is available, or a leased one whose lease has run out; times as in `has_lapsed`.
abbrev pub due_as : NoticeStatus → Notification → Instant → Bool
due_as NoticeStatus.pending row now = leb row.available_at now
due_as NoticeStatus.leased row now = has_lapsed row.lease_until now
due_as NoticeStatus.sent row now = false

unfoldable pub is_due : Instant → Notification → Bool
is_due now row = due_as row.status row now

-- ORDER BY, by insertion; equal rows keep their order.
abbrev pub insert_by {ℓ} : {A : Type ℓ} → (A → A → Bool) → A → List A → List A
insert_by le x [] = x ∷ []
insert_by le x (y ∷ ys) = if le x y then x ∷ y ∷ ys else y ∷ insert_by le x ys

abbrev pub order_by {ℓ} : {A : Type ℓ} → (A → A → Bool) → List A → List A
order_by le [] = []
order_by le (x ∷ xs) = insert_by le x (order_by le xs)

abbrev pub take {ℓ} : {A : Type ℓ} → ℕ → List A → List A
take zero xs = []
take (suc n) [] = []
take (suc n) (x ∷ xs) = x ∷ take n xs

-- The order of the texts of the times is their order in time, as in `has_lapsed`.
abbrev pub by_time : Notification → Notification → Bool
by_time a b =
    ltb a.available_at b.available_at
    || (a.available_at == b.available_at && leb a.notification_id b.notification_id)

abbrev pub by_id : Notification → Notification → Bool
by_id a b = leb a.notification_id b.notification_id

abbrev pub is_notice : ℕ → Notification → Bool
is_notice notification_id row = row.notification_id == notification_id

abbrev pub lease_row : Instant → Instant → Notification → Notification
lease_row now lease_until row = record row {
  status = NoticeStatus.leased;
  attempts = row.attempts + 1;
  lease_until = some lease_until;
  updated_at = now;
}

-- One UPDATE for each id.
unfoldable pub lease_all : Instant → Instant → List ℕ → List Notification → List Notification
lease_all now lease_until [] rows = rows
lease_all now lease_until (i ∷ ids) rows =
    lease_all now lease_until ids (update_where (is_notice i) (lease_row now lease_until) rows)

unfoldable pub list_by_ids : List ℕ → Store → List Notification
list_by_ids ids s = order_by by_id (filter (λ row. contains row.notification_id ids) s.outbox)

unfoldable pub due_ids : Instant → ℕ → Store → List ℕ
due_ids now limit s =
    map Notification.notification_id (take limit (order_by by_time (filter (is_due now) s.outbox)))

abbrev pub seconds : ℕ → Span
seconds n = n * 1000000

unfoldable pub claim : Instant → ℕ → ℕ → Store → Store
claim now lease_seconds limit s = record s {
  outbox = lease_all now (now + seconds lease_seconds) (due_ids now limit s) s.outbox;
}

unfoldable pub claim_notifications : Instant → ℕ → ℕ → Action (List Notification)
claim_notifications now lease_seconds limit s =
    if lease_seconds == 0 || limit == 0
    then err value_error
    else ok (
      list_by_ids (due_ids now limit s) (claim now lease_seconds limit s),
      claim now lease_seconds limit s,
    )

abbrev pub is_leased : ℕ → Notification → Bool
is_leased notification_id row =
    row.notification_id == notification_id
    && elim (row.status) [ NoticeStatus.leased ↦ true | _ ↦ false ]

unfoldable pub mark_sent : ℕ → Instant → Store → Store
mark_sent notification_id now s = record s {
  outbox =
      update_where (is_leased notification_id)
        (λ row. record row { status = NoticeStatus.sent; lease_until = none; updated_at = now })
        s.outbox;
}

unfoldable pub mark_failed : ℕ → Instant → Ident → Instant → Store → Store
mark_failed notification_id now error retry_at s = record s {
  outbox =
      update_where (is_leased notification_id)
        (λ row. record row {
          status = NoticeStatus.pending;
          lease_until = none;
          available_at = retry_at;
          last_error = some error;
          updated_at = now;
        })
        s.outbox;
}

-- The channel: the text of the error that it raises, or none if it accepts the notification.
abbrev pub Channel : Type 0
Channel = Notification → Option Ident

abbrev pub settle : Option Ident → Notification → Instant → ℕ → Store → Store
settle none row now delay s = mark_sent row.notification_id now s
settle (some error) row now delay s =
    mark_failed row.notification_id now error (now + seconds delay) s

abbrev pub sent_of : Option Ident → ℕ
sent_of none = 1
sent_of (some error) = 0

unfoldable pub deliver_all : Channel → Instant → ℕ → List Notification → Store → ℕ × Store
deliver_all deliver now delay [] s = (0, s)
deliver_all deliver now delay (row ∷ rows) s =
    let (sent, t) = deliver_all deliver now delay rows (settle (deliver row) row now delay s) in
    (sent_of (deliver row) + sent, t)

abbrev pub deliver_claimed :
    Channel → Instant → ℕ → Result (List Notification × Store) → Result (ℕ × Store)
deliver_claimed deliver now delay (err e) = err e
deliver_claimed deliver now delay (ok (rows, s)) = ok (deliver_all deliver now delay rows s)

-- The lease is the one that `claim_notifications` gives by default, five minutes.
unfoldable pub drain_notifications : Channel → Instant → ℕ → ℕ → Action ℕ
drain_notifications deliver now limit delay s =
    deliver_claimed deliver now delay (claim_notifications now 300 limit s)

abbrev pub is_sent : Notification → Bool
is_sent row = elim (row.status) [ NoticeStatus.sent ↦ true | _ ↦ false ]

-- The newest sent rows are kept, and of the others those that are recent; times as in `has_lapsed`.
unfoldable pub prune_sent : Instant → ℕ → Store → Store
prune_sent before keep_latest s =
    let kept =
      map Notification.notification_id
        (take keep_latest (order_by (λ a b. by_id b a) (filter is_sent s.outbox))) in
    record s {
      outbox =
          delete_where
            (λ row.
              is_sent row && (ltb row.updated_at before && not (contains row.notification_id kept)))
            s.outbox;
    }
