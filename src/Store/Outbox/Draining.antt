-- ===== src/Store/Outbox/Draining.antt =====
-- What a round of deliveries leaves (src/longtask/persistence/notifications.py,
-- `drain_notifications`).
use mathlib.Core.Path.{subst}
use lhgp.Prelude.{
  ℕ, ◌+◌, ◌≡◌, refl, inl, inr, Bool, true, false, Option, none, some, List, [], ◌∷◌, ◌++◌, nat_eq,
  filter, contains, if◌then◌else◌, arith, All, All-map, append_snoc, append_nil, Bool-cases,
  ==_refl, length, is_some, not,
}
use lhgp.Prelude.Tables.{find, update_where, first_of_two, find-append_one}
use lhgp.Contracts.Policies.{Instant, Ident}
use lhgp.Store.Types.{Notification, NoticeStatus, Store, ok}
use lhgp.Store.Outbox.{
  is_notice, is_leased, mark_sent, mark_failed, settle, deliver_all, drain_notifications,
  claim_notifications, Channel, seconds, due_ids, list_by_ids, claim,
}
use lhgp.Store.Outbox.Leasing.{ids_of, claim-AreHeld, listed, member-All, All-of_map}

-- What the channel's answer to a notification makes of its row: it is sent where the channel has
-- accepted it, and else waits, with the error, until the time of its retry.
abbrev pub IsSettled : Option Ident → Instant → Notification → Type 0
IsSettled none retry_at row = row.status ≡ NoticeStatus.sent
IsSettled (some error) retry_at row =
    (row.status ≡ NoticeStatus.pending)
    × (row.available_at ≡ retry_at)
    × (row.last_error ≡ some error)

-- The row is as the channel has answered the notification; where there is none, nothing is said.
abbrev pub IsAnswered : Channel → Instant → Option Notification → Notification → Type 0
IsAnswered deliver retry_at none x = Unit
IsAnswered deliver retry_at (some r) x = IsSettled (deliver r) retry_at x

-- Of the rows that were claimed, `all`, those that have not been delivered are leased.
abbrev IsUnderway : Channel → Instant → List ℕ → Option Notification → Notification → Type 0
IsUnderway deliver retry_at all none x =
    contains x.notification_id all ≡ true → x.status ≡ NoticeStatus.leased
IsUnderway deliver retry_at all (some r) x = IsSettled (deliver r) retry_at x

not_leased :
    (o : Option Ident) (retry_at : Instant) (i : ℕ) (x : Notification)
    → IsSettled o retry_at x
    → is_leased i x ≡ false
not_leased none retry_at i x h = ground (arith, h)
not_leased (some e) retry_at i x h = ground (arith, h.0)

module _ (deliver : Channel) (retry_at : Instant) (all : List ℕ) (row : Notification)
    (f : Notification → Notification)
    (own : (x : Notification) → (f x).notification_id ≡ x.notification_id)
    (settles : (x : Notification) → IsSettled (deliver row) retry_at (f x))
    (claimed : contains row.notification_id all ≡ true) where
  settle_row :
      (x : Notification) (b : Bool) (o : Option Notification)
      → is_leased row.notification_id x ≡ b
      → IsUnderway deliver retry_at all o x
      → IsUnderway deliver retry_at all
          (first_of_two o (if is_notice x.notification_id row then some row else none))
          (if b then f x else x)
  settle_row x true none e h =
      let same : is_notice x.notification_id row ≡ true = ground arith in rw same (settles x)
  settle_row x true (some r) e h =
      absurd (cc (e, not_leased (deliver r) retry_at row.notification_id x h))
  settle_row x false none e h = elim (Bool-cases (is_notice x.notification_id row)) [
    | inl same ↦
        let k : x.notification_id ≡ row.notification_id = ground arith in
        let leased = h (rw k claimed) in absurd (ground (arith, leased))
    | inr other ↦ rw other h
  ]
  settle_row x false (some r) e h = h

  settle_rows :
      (done rows : List Notification)
      → All (λ x. IsUnderway deliver retry_at all (find (is_notice x.notification_id) done) x) rows
      → All
          (λ x.
            IsUnderway deliver retry_at all
              (find (is_notice x.notification_id) (done ++ row ∷ []))
              x)
          (update_where (is_leased row.notification_id) f rows)
  unfolding update_where
  settle_rows done [] h = tt
  settle_rows done (x ∷ rows) h =
      let b = is_leased row.notification_id x in
      let k : (if b then f x else x).notification_id ≡ x.notification_id = ground (arith, own x) in
      let one = settle_row x b (find (is_notice x.notification_id) done) refl h.0 in
      (
        rw (k, find-append_one (is_notice x.notification_id) row done) one,
        settle_rows done rows h.1,
      )

settle-IsUnderway :
    (deliver : Channel) (row : Notification) (now : Instant) (delay : ℕ) (all : List ℕ)
    (done : List Notification) (s : Store) (o : Option Ident)
    → deliver row ≡ o
    → contains row.notification_id all ≡ true
    → All
        (λ x.
          IsUnderway deliver (now + seconds delay) all (find (is_notice x.notification_id) done) x)
        s.outbox
    → All
        (λ x.
          IsUnderway deliver
            (now + seconds delay)
            all
            (find (is_notice x.notification_id) (done ++ row ∷ []))
            x)
        (settle o row now delay s).outbox
unfolding mark_sent mark_failed
settle-IsUnderway deliver row now delay all done s none e claimed h =
    settle_rows deliver (now + seconds delay) all row _ (λ x. refl) (λ x. rw e refl) claimed done
      s.outbox h
settle-IsUnderway deliver row now delay all done s (some error) e claimed h =
    settle_rows deliver (now + seconds delay) all row _ (λ x. refl) (λ x. rw e (refl, refl, refl))
      claimed done s.outbox h

deliver_all-IsUnderway :
    (deliver : Channel) (now : Instant) (delay : ℕ) (all : List ℕ) (done rows : List Notification)
    (s : Store)
    → All (λ r. contains r.notification_id all ≡ true) rows
    → All
        (λ x.
          IsUnderway deliver (now + seconds delay) all (find (is_notice x.notification_id) done) x)
        s.outbox
    → All
        (λ x.
          IsUnderway deliver
            (now + seconds delay)
            all
            (find (is_notice x.notification_id) (done ++ rows))
            x)
        (deliver_all deliver now delay rows s).1.outbox
unfolding deliver_all
deliver_all-IsUnderway deliver now delay all done [] s claimed h = rw (append_nil done) h
deliver_all-IsUnderway deliver now delay all done (row ∷ rows) s claimed h =
    let o = deliver row in
    let t = settle o row now delay s in
    subst
      (λ d.
        All
          (λ x.
            IsUnderway deliver (now + seconds delay) all (find (is_notice x.notification_id) d) x)
          (deliver_all deliver now delay rows t).1.outbox)
      (append_snoc done row rows)
      (deliver_all-IsUnderway deliver now delay all (done ++ row ∷ []) rows t claimed.1
        (settle-IsUnderway deliver row now delay all done s o refl claimed.0 h))

sent_count :
    (deliver : Channel) (now : Instant) (delay : ℕ) (rows : List Notification) (s : Store)
    → (deliver_all deliver now delay rows s).0
      ≡ length (filter (λ r. not (is_some (deliver r))) rows)
unfolding deliver_all
sent_count deliver now delay [] s = refl
sent_count deliver now delay (row ∷ rows) s =
    ground (arith, sent_count deliver now delay rows (settle (deliver row) row now delay s))

ids_among : (xs : List Notification) → All (λ r. contains r.notification_id (ids_of xs) ≡ true) xs
ids_among [] = tt
ids_among (x ∷ xs) =
    (ground (arith, ==_refl x.notification_id), All-map xs (λ y h. ground arith) (ids_among xs))

-- A claim leaves what it returns leased.
claimed-IsUnderway :
    (deliver : Channel) (now : Instant) (limit delay : ℕ) (s m : Store) (rows : List Notification)
    → claim_notifications now 300 limit s ≡ ok (rows, m)
    → All (IsUnderway deliver (now + seconds delay) (ids_of rows) none) m.outbox
unfolding claim_notifications
claimed-IsUnderway deliver now limit delay s m rows claimed =
    let ids = due_ids now limit s in
    let e : claim now 300 limit s ≡ m = ground arith in
    let a : list_by_ids ids m ≡ rows = ground arith in
    let own =
      All-of_map (λ i. contains i ids ≡ true) Notification.notification_id rows
        (subst (All (λ r. contains r.notification_id ids ≡ true)) a (listed ids m)) in
    subst (λ x. All (IsUnderway deliver (now + seconds delay) (ids_of rows) none) x.outbox) e
      (All-map (claim now 300 limit s).outbox
        (λ x h k.
          (h (member-All (λ i. contains i ids ≡ true) x.notification_id (ids_of rows) k own)).0)
        (claim-AreHeld now 300 limit s))

answered :
    (deliver : Channel) (retry_at : Instant) (all : List ℕ) (o : Option Notification)
    (x : Notification)
    → IsUnderway deliver retry_at all o x
    → IsAnswered deliver retry_at o x
answered deliver retry_at all none x h = tt
answered deliver retry_at all (some r) x h = h

-- A round of deliveries claims what a claim for five minutes does. Afterwards the row of each claimed
-- notification is as the channel has answered that notification: sent where it was accepted, and where
-- it was refused pending, with the error kept and the retry at the end of the delay. The answer of the
-- round is the number of the claimed notifications that the channel has accepted.
pub drain_settles :
    (deliver : Channel) (now : Instant) (limit delay n : ℕ) (s m u : Store)
    (rows : List Notification)
    → claim_notifications now 300 limit s ≡ ok (rows, m)
    → drain_notifications deliver now limit delay s ≡ ok (n, u)
    → All
        (λ x. IsAnswered deliver (now + seconds delay) (find (is_notice x.notification_id) rows) x)
        u.outbox
      × (n ≡ length (filter (λ r. not (is_some (deliver r))) rows))
unfolding drain_notifications find
drain_settles deliver now limit delay n s m u rows claimed done =
    let run : deliver_all deliver now delay rows m ≡ (n, u) = ground arith in
    let start = claimed-IsUnderway deliver now limit delay s m rows claimed in
    let after =
      deliver_all-IsUnderway deliver now delay (ids_of rows) [] rows m (ids_among rows) start in
    (
      subst
          (λ r.
            All
              (λ x.
                IsAnswered deliver (now + seconds delay) (find (is_notice x.notification_id) rows)
                  x)
              r.1.outbox)
          run
          (All-map (deliver_all deliver now delay rows m).1.outbox
            (λ x.
              answered deliver (now + seconds delay) (ids_of rows)
                (find (is_notice x.notification_id) rows) x)
            after),
      subst (λ r. r.0 ≡ length (filter (λ x. not (is_some (deliver x))) rows)) run
          (sent_count deliver now delay rows m),
    )
