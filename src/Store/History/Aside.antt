-- ===== src/Store/History/Aside.antt =====
-- The calls that leave contracts and snapshots alone keep the invariant of the contract tables
-- (src/longtask/persistence/leases.py, attempts.py).
use mathlib.Core.Path.{subst}
use lhgp.Prelude.{
  append_nil, append_assoc, ℕ, ◌+◌, ◌<◌, ◌≡◌, refl, sym, Option, none, some, List, [], ◌∷◌, ◌++◌,
  inl, inr, ◌⊎◌, Option-cases, arith, nat_eq, All, All-append_one, All-map, ◌∙◌,
}
use lhgp.Goals.Progress.{Texts}
use lhgp.Goals.Amending.{GoalPatch, patch_goal, write_plan, amended_event}
use lhgp.Goals.Amending.Guard.{patch_goal-Amended}
use lhgp.Store.Types.{Goal}
use lhgp.Contracts.Policies.{Ident}
use lhgp.Store.Types.{StoredLease, StoredEvent, Store, Value, Payload, ok}
use lhgp.Store.Events.{append_event, stored_event, NewEvent}
use lhgp.Store.Quiet.{Platform}
use lhgp.Store.Leases.{
  LeaseCall, truthy, get_lease, acquire_lease, reclaim_lease, renew_lease, release_lease,
  write_acquired, write_reclaimed, write_renewed, write_released,
}
use lhgp.Store.Contracts.{get_contract}
use lhgp.Store.Contracts.Invariant.{IsValid, IsBehind}
use lhgp.Store.Attempts.{set_attempt_state, mark_attempt_orphaned, register_attempt_handle}
use lhgp.Store.Attempts.Laws.{Write, written}
use lhgp.Store.WriteBack.{
  WriteBack, EventInput, record_report, log_events, input_event, append_inputs, anchored,
  bookkeeping_event,
}

-- A call leaves contracts and snapshots alone, adds events at the end of the log, and gives out event
-- ids in order.
pub record IsAside (s t : Store) : Type 0 where
  pub added : List StoredEvent
  pub log : t.events ≡ s.events ++ added
  pub contracts : t.contracts ≡ s.contracts
  pub snapshots : t.snapshots ≡ s.snapshots
  pub ids :
      All (λ e. e.event_id < s.next_event_id) s.events
      → All (λ e. e.event_id < t.next_event_id) t.events

IsAside-refl : (s : Store) → IsAside s s
IsAside-refl s = record {
  added = [];
  log = sym (append_nil s.events);
  contracts = refl;
  snapshots = refl;
  ids = λ h. h;
}

IsAside-trans : (s t u : Store) → IsAside s t → IsAside t u → IsAside s u
IsAside-trans s t u a b = record {
  added = a.added ++ b.added;
  log = b.log ∙ rw (a.log) (append_assoc s.events a.added b.added);
  contracts = b.contracts ∙ a.contracts;
  snapshots = b.snapshots ∙ a.snapshots;
  ids = λ h. b.ids (a.ids h);
}

pub IsAside-IsValid : (s t : Store) → IsAside s t → IsValid s → IsValid t
unfolding get_contract
IsAside-IsValid s t a v = record {
  snapshots_behind =
      subst (All (IsBehind t)) (sym a.snapshots)
        (All-map s.snapshots (λ x h. (h.0, rw (a.contracts) h.1, h.2)) v.snapshots_behind);
  current_snapshot = λ cid row here.
      let (x, there, agrees) = v.current_snapshot cid row (rw (← a.contracts) here) in
      (x, rw (a.snapshots) there, agrees);
  ids_below = a.ids v.ids_below;
}

-- One event is logged, and other tables may change.
logged-IsAside :
    (row : StoredEvent) (s t : Store)
    → t.events ≡ s.events ++ row ∷ []
    → row.event_id ≡ s.next_event_id
    → t.next_event_id ≡ s.next_event_id + 1
    → t.contracts ≡ s.contracts
    → t.snapshots ≡ s.snapshots
    → IsAside s t
logged-IsAside row s t events own next c n = record {
  added = row ∷ [];
  log = events;
  contracts = c;
  snapshots = n;
  ids = λ h.
      rw (events, next)
        (All-append_one (λ e. e.event_id < s.next_event_id + 1) s.events row
          (All-map s.events (λ e k. omega arith) h) (omega (arith, own)));
}

either-IsAside : {s t u : Store} → (t ≡ s) ⊎ (t ≡ u) → IsAside s u → IsAside s t
either-IsAside {s} (inl same) a = rw same (IsAside-refl s)
either-IsAside (inr wrote) a = rw wrote a

module _ (c : LeaseCall) (s : Store) where
  write_acquired-IsAside : (h : Ident) (g : ℕ) → IsAside s (write_acquired c h g s)
  unfolding write_acquired stored_event
  write_acquired-IsAside h g = logged-IsAside _ s _ refl refl refl refl refl

  write_reclaimed-IsAside :
      (o h : Ident) (g : ℕ) (r : Payload) → IsAside s (write_reclaimed c o h g r s)
  unfolding write_reclaimed stored_event
  write_reclaimed-IsAside o h g r = logged-IsAside _ s _ refl refl refl refl refl

  write_renewed-IsAside : (h : Ident) (g : ℕ) → IsAside s (write_renewed c h g s)
  unfolding write_renewed stored_event
  write_renewed-IsAside h g = logged-IsAside _ s _ refl refl refl refl refl

  write_released-IsAside : (h : Ident) (g : ℕ) → IsAside s (write_released c h g s)
  unfolding write_released stored_event
  write_released-IsAside h g = logged-IsAside _ s _ refl refl refl refl refl

  pub acquired-IsAside :
      (h : Ident) (g : ℕ) (l : StoredLease) (t : Store)
      → acquire_lease c h g s ≡ ok (l, t)
      → IsAside s t
  unfolding acquire_lease
  acquired-IsAside h g l t done =
      let e : (t ≡ s) ⊎ (t ≡ write_acquired c h (g + 1) s) = ground arith in
      either-IsAside e (write_acquired-IsAside h (g + 1))

  pub reclaimed-IsAside :
      (h : Option Ident) (g : ℕ) (u : Value) (l : StoredLease) (t : Store)
      → reclaim_lease c h g u s ≡ ok (l, t)
      → IsAside s t
  unfolding reclaim_lease
  reclaimed-IsAside none g u l t done = let e : t ≡ s = ground arith in rw e (IsAside-refl s)
  reclaimed-IsAside (some h) g u l t done =
      elim (Option-cases (get_lease c.contract_id c.partition_id s)) [
        | inl missing ↦ let e : t ≡ s = ground arith in rw e (IsAside-refl s)
        | inr (old, found) ↦
            let w = write_reclaimed c old.holder_attempt_id h (g + 1) (("reason", u) ∷ []) s in
            let e : (t ≡ s) ⊎ (t ≡ w) = ground arith in
            either-IsAside e
              (write_reclaimed-IsAside old.holder_attempt_id h (g + 1) (("reason", u) ∷ []))
      ]

  pub renewed-IsAside :
      (h : Ident) (g : ℕ) (l : StoredLease) (t : Store)
      → renew_lease c h g s ≡ ok (l, t)
      → IsAside s t
  unfolding renew_lease
  renewed-IsAside h g l t done =
      let e : (t ≡ s) ⊎ (t ≡ write_renewed c h g s) = ground arith in
      either-IsAside e (write_renewed-IsAside h g)

  pub released-IsAside :
      (h : Ident) (g : ℕ) (t : Store) → release_lease c h g s ≡ ok (tt, t) → IsAside s t
  unfolding release_lease
  released-IsAside h g t done =
      let e : (t ≡ s) ⊎ (t ≡ write_released c h g s) = ground arith in
      either-IsAside e (write_released-IsAside h g)

pub written-IsAside : (w : Write) (s : Store) → IsAside s (written w s)
unfolding set_attempt_state mark_attempt_orphaned register_attempt_handle
written-IsAside (Write.state c) s = record {
  added = [];
  log = sym (append_nil s.events);
  contracts = refl;
  snapshots = refl;
  ids = λ h. h;
}
written-IsAside (Write.orphaned a now) s = record {
  added = [];
  log = sym (append_nil s.events);
  contracts = refl;
  snapshots = refl;
  ids = λ h. h;
}
written-IsAside (Write.handle h) s = record {
  added = [];
  log = sym (append_nil s.events);
  contracts = refl;
  snapshots = refl;
  ids = λ h. h;
}

pub record_report-IsAside :
    (p : Platform) (w : WriteBack) (s : Store) → IsAside s (record_report p w s)
unfolding record_report
record_report-IsAside p w s = record {
  added = [];
  log = sym (append_nil s.events);
  contracts = refl;
  snapshots = refl;
  ids = λ h. h;
}

append_event-IsAside : (e : NewEvent) (s : Store) → IsAside s (append_event e s).1
unfolding append_event stored_event
append_event-IsAside e s =
    logged-IsAside (stored_event e s.next_event_id) s (append_event e s).1 refl refl refl refl refl

append_inputs-IsAside :
    (w : WriteBack) (is : List EventInput) (s : Store) → IsAside s (append_inputs w is s).1
unfolding append_inputs
append_inputs-IsAside w [] s = IsAside-refl s
append_inputs-IsAside w (i ∷ is) s =
    let m = (append_event (input_event w i) s).1 in
    IsAside-trans s m _ (append_event-IsAside (input_event w i) s) (append_inputs-IsAside w is m)

anchored-IsAside :
    (w : WriteBack) (o : Option Ident) (r : List ℕ × Store) → IsAside r.1 (anchored w o r).1
anchored-IsAside w none r = IsAside-refl r.1
anchored-IsAside w (some key) (i ∷ is, s) = IsAside-refl s
anchored-IsAside w (some key) ([], s) = append_event-IsAside (bookkeeping_event w) s

pub log_events-IsAside : (w : WriteBack) (s : Store) → IsAside s (log_events w s).1
unfolding log_events
log_events-IsAside w s =
    IsAside-trans s (append_inputs w w.events s).1 _ (append_inputs-IsAside w w.events s)
      (anchored-IsAside w (truthy w.request_id) (append_inputs w w.events s))

pub patch_goal-IsAside :
    (x : Texts) (c : GoalPatch) (s t : Store) (row : Goal)
    → patch_goal x c s ≡ ok (row, t)
    → IsAside s t
unfolding write_plan append_event stored_event
patch_goal-IsAside x c s t row done =
    let a = patch_goal-Amended x c s t row done in
    rw (a.written) (
      logged-IsAside (stored_event (amended_event c a.current a.plan) s.next_event_id) s
        (write_plan c a.current a.plan s) refl refl refl refl refl)
