-- ===== src/Store/Outbox/Leasing.antt =====
-- Who may deliver a notification (src/longtask/persistence/notifications.py,
-- `claim_notifications`).
use mathlib.Core.Path.{subst}
use lhgp.Prelude.{
  ℕ, ◌+◌, ◌<◌, zero, suc, ◌≡◌, refl, inl, inr, Bool, true, false, some, List, [], ◌∷◌, ◌==◌, nat_eq,
  ◌||◌, map, filter, contains, if◌then◌else◌, arith, All, All-map, Bool-cases,
}
use lhgp.Prelude.Tables.{update_where}
use lhgp.Contracts.Policies.{Instant}
use lhgp.Store.Types.{Notification, NoticeStatus, Store, ok}
use lhgp.Store.Outbox.{
  is_due, insert_by, order_by, take, by_time, by_id, is_notice, lease_row, lease_all, list_by_ids,
  due_ids, seconds, claim, claim_notifications,
}

abbrev pub ids_of : List Notification → List ℕ
ids_of = map Notification.notification_id

-- The row is leased until then.
abbrev pub IsHeld : Instant → Notification → Type 0
IsHeld lease_until row = (row.status ≡ NoticeStatus.leased) × (row.lease_until ≡ some lease_until)

module _ {ℓ κ} {A : Type ℓ} (P : A → Type κ) where
  All-insert_by :
      (le : A → A → Bool) (x : A) (xs : List A) → P x → All P xs → All P (insert_by le x xs)
  All-insert_by le x [] h k = (h, tt)
  All-insert_by le x (y ∷ ys) h k = elim (Bool-cases (le x y)) [
    | inl first ↦ rw first (h, k)
    | inr later ↦ rw later (k.0, All-insert_by le x ys h k.1)
  ]

  pub All-order_by : (le : A → A → Bool) (xs : List A) → All P xs → All P (order_by le xs)
  All-order_by le [] h = tt
  All-order_by le (x ∷ xs) h = All-insert_by le x (order_by le xs) h.0 (All-order_by le xs h.1)

  pub All-take : (n : ℕ) (xs : List A) → All P xs → All P (take n xs)
  All-take zero xs h = tt
  All-take (suc n) [] h = tt
  All-take (suc n) (x ∷ xs) h = (h.0, All-take n xs h.1)

  -- A filter keeps what holds of all, and adds its own test.
  pub All-filter :
      (p : A → Bool) (xs : List A) → All P xs → All (λ x. (p x ≡ true) × P x) (filter p xs)
  All-filter p [] h = tt
  All-filter p (x ∷ xs) h = elim (Bool-cases (p x)) [
    | inl kept ↦ rw kept ((kept, h.0), All-filter p xs h.1)
    | inr dropped ↦ rw dropped (All-filter p xs h.1)
  ]

pub All-of_map {ℓ κ ι} :
    {A : Type ℓ} {B : Type κ} (P : B → Type ι) (f : A → B) (xs : List A)
    → All (λ x. P (f x)) xs
    → All P (map f xs)
All-of_map P f [] h = tt
All-of_map P f (x ∷ xs) h = (h.0, All-of_map P f xs h.1)

pub member-All {ℓ} : (P : ℕ → Type ℓ) (a : ℕ) (xs : List ℕ) → contains a xs ≡ true → All P xs → P a
member-All P a [] h k = absurd (cc h)
member-All P a (x ∷ xs) h k = elim (Bool-cases (a == x)) [
  | inl same ↦ let e : x ≡ a = ground arith in subst P e k.0
  | inr other ↦ member-All P a xs (ground arith) k.1
]

pub trivial {ℓ} : {A : Type ℓ} (xs : List A) → All (λ x. Unit {0}) xs
trivial [] = tt
trivial (x ∷ xs) = (tt, trivial xs)

-- The rows with one of the ids `c` are held.
abbrev AreHeld : Instant → List ℕ → List Notification → Type 0
AreHeld lease_until c rows =
    All (λ x. contains x.notification_id c ≡ true → IsHeld lease_until x) rows

lease_one :
    (now lease_until : Instant) (i : ℕ) (c : List ℕ) (rows : List Notification)
    → AreHeld lease_until c rows
    → AreHeld lease_until (i ∷ c) (update_where (is_notice i) (lease_row now lease_until) rows)
unfolding update_where
lease_one now lease_until i c [] h = tt
lease_one now lease_until i c (x ∷ rows) h =
    (step (is_notice i x) refl, lease_one now lease_until i c rows h.1)
  where
    step :
        (b : Bool)
        → is_notice i x ≡ b
        → contains (if b then lease_row now lease_until x else x).notification_id (i ∷ c) ≡ true
        → IsHeld lease_until (if b then lease_row now lease_until x else x)
    step true e m = (refl, refl)
    step false e m = h.0 (ground arith)

lease_all-AreHeld :
    (now lease_until : Instant) (ids c : List ℕ) (rows : List Notification)
    → AreHeld lease_until c rows
    → All
        (λ x.
          (contains x.notification_id ids || contains x.notification_id c) ≡ true
          → IsHeld lease_until x)
        (lease_all now lease_until ids rows)
unfolding lease_all
lease_all-AreHeld now lease_until [] c rows h = h
lease_all-AreHeld now lease_until (i ∷ ids) c rows h =
    All-map (lease_all now lease_until ids _) (λ x k m. k (ground arith))
      (lease_all-AreHeld now lease_until ids (i ∷ c) _ (lease_one now lease_until i c rows h))

-- After a claim, the rows that it has named are held.
pub claim-AreHeld :
    (now : Instant) (lease_seconds limit : ℕ) (s : Store)
    → All
        (λ x.
          contains x.notification_id (due_ids now limit s) ≡ true
          → IsHeld (now + seconds lease_seconds) x)
        (claim now lease_seconds limit s).outbox
unfolding claim
claim-AreHeld now lease_seconds limit s =
    All-map (claim now lease_seconds limit s).outbox (λ x k m. k (ground arith))
      (lease_all-AreHeld now (now + seconds lease_seconds) (due_ids now limit s) [] s.outbox
        (All-map s.outbox (λ x u m. absurd (cc m)) (trivial s.outbox)))

held_not_due :
    (until later : Instant) (x : Notification)
    → later < until
    → IsHeld until x
    → is_due later x ≡ false
unfolding is_due
held_not_due until later x soon (leased, lease) = rw (leased, lease) (ground arith)

-- The ids that a later claim selects are others, while the leases run.
other_ids :
    (until later : Instant) (n : ℕ) (ids : List ℕ) (t : Store)
    → later < until
    → All (λ x. contains x.notification_id ids ≡ true → IsHeld until x) t.outbox
    → All (λ i. contains i ids ≡ false) (due_ids later n t)
unfolding due_ids
other_ids until later n ids t soon held =
    All-of_map (λ i. contains i ids ≡ false) Notification.notification_id _
      (All-take _ n _ (
        All-order_by _ by_time _ (
          All-map (filter (is_due later) t.outbox) not_among
            (All-filter _ (is_due later) t.outbox held))))
  where
    not_among :
        (x : Notification)
        → (is_due later x ≡ true) × (contains x.notification_id ids ≡ true → IsHeld until x)
        → contains x.notification_id ids ≡ false
    not_among x (due, h) = elim (Bool-cases (contains x.notification_id ids)) [
      | inl member ↦ absurd (cc (due, held_not_due until later x soon (h member)))
      | inr new ↦ new
    ]

pub listed :
    (ids : List ℕ) (s : Store)
    → All (λ r. contains r.notification_id ids ≡ true) (list_by_ids ids s)
unfolding list_by_ids
listed ids s = All-order_by _ by_id _ (
    All-map (filter (λ row. contains row.notification_id ids) s.outbox) (λ x h. h.0)
      (All-filter (λ x. Unit {0}) (λ row. contains row.notification_id ids) s.outbox
        (trivial s.outbox)))

-- While the leases of a claim run, a later claim returns none of the notifications that it returned.
pub claimed_once :
    (s t u : Store) (now later : Instant) (lease_seconds limit span n : ℕ)
    (rows more : List Notification)
    → claim_notifications now lease_seconds limit s ≡ ok (rows, t)
    → claim_notifications later span n t ≡ ok (more, u)
    → later < now + seconds lease_seconds
    → All (λ r. contains r.notification_id (ids_of rows) ≡ false) more
unfolding claim_notifications
claimed_once s t u now later lease_seconds limit span n rows more first second soon =
    let ids = due_ids now limit s in
    let e : claim now lease_seconds limit s ≡ t = ground arith in
    let a : list_by_ids ids t ≡ rows = ground arith in
    let b : list_by_ids (due_ids later n t) (claim later span n t) ≡ more = ground arith in
    let held =
      subst
        (λ x.
          All (λ y. contains y.notification_id ids ≡ true → IsHeld (now + seconds lease_seconds) y)
            x.outbox)
        e (claim-AreHeld now lease_seconds limit s) in
    let apart = other_ids (now + seconds lease_seconds) later n ids t soon held in
    let own =
      All-of_map (λ i. contains i ids ≡ true) Notification.notification_id rows
        (subst (All (λ r. contains r.notification_id ids ≡ true)) a (listed ids t)) in
    subst (All (λ r. contains r.notification_id (ids_of rows) ≡ false)) b (
      All-map (list_by_ids (due_ids later n t) (claim later span n t))
        (λ r m. elim (Bool-cases (contains r.notification_id (ids_of rows))) [
          | inl again ↦ absurd (
              cc (
                member-All (λ i. contains i ids ≡ true) r.notification_id (ids_of rows) again own,
                member-All (λ i. contains i ids ≡ false) r.notification_id (due_ids later n t) m
                    apart,
              ))
          | inr new ↦ new
        ])
        (listed (due_ids later n t) (claim later span n t)))
