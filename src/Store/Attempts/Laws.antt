-- ===== src/Store/Attempts/Laws.antt =====
-- What the writes of the attempts table keep (src/longtask/persistence/attempts.py).
use lhgp.Prelude.{
  ℕ, ◌≤◌, ◌<◌, ==_refl, ◌≡◌, true, false, none, some, List, [], ◌∷◌, ◌==◌, nat_eq, ◌&&◌, option_beq,
  contains, filter, length, arith, is_some, not, inl, inr, Bool-cases, ◌∙◌, ap,
}
use mathlib.Core.Option
use lhgp.Prelude.Tables.{find, update_where, find-update_self}
use lhgp.Store.Events.{if_none}
use lhgp.Contracts.Axes.{AttemptState, attempt_state_eq}
use lhgp.Contracts.Machine.{is_terminal_attempt_state, attempt_non_terminal_states}
use lhgp.Contracts.Policies.{Ident, Instant}
use lhgp.Store.Types.{StoredAttempt, Store}
use lhgp.Store.Attempts.{
  is_attempt, get_attempt, AttemptChange, set_state, set_attempt_state, mark_attempt_orphaned,
  orphan, count_running_by_executor, Handle, set_handle, register_attempt_handle,
}

-- A write on an attempt.
pub data Write : Type 0 where
  state : AttemptChange → Write
  orphaned : Ident → Instant → Write
  handle : Handle → Write

abbrev pub written : Write → Store → Store
written (state c) s = set_attempt_state c s
written (orphaned a now) s = mark_attempt_orphaned a now s
written (handle h) s = register_attempt_handle h s

abbrev pub written_all : List Write → Store → Store
written_all [] s = s
written_all (w ∷ ws) s = written_all ws (written w s)

-- What no write undoes: a start time keeps its value, and an end time once set stays set.
pub record Keeps (row later : StoredAttempt) : Type 0 where
  pub same_attempt : later.attempt_id ≡ row.attempt_id
  pub same_executor : later.executor_id ≡ row.executor_id
  pub started : if_none row.started_at later.started_at ≡ later.started_at
  pub ended : (is_some row.terminal_at && not (is_some later.terminal_at)) ≡ false

set_state-Keeps : (c : AttemptChange) (row : StoredAttempt) → Keeps row (set_state c row)
unfolding set_state
set_state-Keeps c row = ground arith

orphan-Keeps : (now : Instant) (row : StoredAttempt) → Keeps row (orphan now row)
unfolding orphan
orphan-Keeps now row = ground arith

set_handle-Keeps : (h : Handle) (row : StoredAttempt) → Keeps row (set_handle h row)
unfolding set_handle
set_handle-Keeps h row = ground arith

Keeps-trans : (a b c : StoredAttempt) → Keeps a b → Keeps b c → Keeps a c
Keeps-trans a b c h k = ground arith

Keeps-refl : (a : StoredAttempt) → Keeps a a
Keeps-refl a = ground arith

-- A row that is there before an update is there after it, and keeps what the update of one row keeps.
find_kept :
    (a b : Ident) (f : StoredAttempt → StoredAttempt) (rows : List StoredAttempt)
    (row : StoredAttempt)
    → ((x : StoredAttempt) → Keeps x (f x))
    → find (is_attempt a) rows ≡ some row
    → (later : StoredAttempt) × (find (is_attempt a) (update_where (is_attempt b) f rows)
        ≡ some later)
      × Keeps row later
unfolding find update_where
find_kept a b f [] row keep h = absurd (cc h)
find_kept a b f (x ∷ rows) row keep h = elim (Bool-cases (x.attempt_id == a)) [
  | inl here ↦ elim (Bool-cases (x.attempt_id == b)) [
    | inl hit ↦ (f x, ground (arith, (keep x).same_attempt), ground (arith, keep x))
    | inr miss ↦ (x, ground arith, ground (arith, Keeps-refl x))
  ]
  | inr past ↦
      let (later, there, k) = find_kept a b f rows row keep (ground arith) in
      (later, ground (arith, (keep x).same_attempt, there), k)
]

written_kept :
    (w : Write) (a : Ident) (s : Store) (row : StoredAttempt)
    → get_attempt a s ≡ some row
    → (later : StoredAttempt) × (get_attempt a (written w s) ≡ some later) × Keeps row later
unfolding get_attempt set_attempt_state mark_attempt_orphaned register_attempt_handle
written_kept (state c) a s row h =
    find_kept a c.attempt_id (set_state c) s.attempts row (set_state-Keeps c) h
written_kept (orphaned b now) a s row h =
    find_kept a b (orphan now) s.attempts row (orphan-Keeps now) h
written_kept (handle c) a s row h =
    find_kept a c.attempt_id (set_handle c) s.attempts row (set_handle-Keeps c) h

-- Over any sequence of state writes, orphan marks and registered handles, on this and on other attempts, an attempt stays
-- in the table under its executor, its start time once set keeps its value, and its end time once set
-- stays set.
pub attempt_times_kept :
    (ws : List Write) (a : Ident) (s : Store) (row : StoredAttempt)
    → get_attempt a s ≡ some row
    → (later : StoredAttempt) × (get_attempt a (written_all ws s) ≡ some later) × Keeps row later
attempt_times_kept [] a s row h = (row, h, Keeps-refl row)
attempt_times_kept (w ∷ ws) a s row h =
    let (mid, there, k) = written_kept w a s row h in
    let (later, last, m) = attempt_times_kept ws a (written w s) mid there in
    (later, last, Keeps-trans row mid later k m)

orphan_found :
    (a : Ident) (now : Instant) (s : Store) (row : StoredAttempt)
    → get_attempt a s ≡ some row
    → get_attempt a (mark_attempt_orphaned a now s) ≡ some (orphan now row)
unfolding get_attempt mark_attempt_orphaned
orphan_found a now s row h =
    find-update_self (is_attempt a) (orphan now) s.attempts (λ x k. k)
    ∙ ap (Option.map (orphan now)) h

orphan_keeps_mark :
    (now : Instant) (row : StoredAttempt) (t : Instant)
    → row.orphaned_at ≡ some t
    → (orphan now row).orphaned_at ≡ some t
unfolding orphan
orphan_keeps_mark now row t o = rw o

abbrev pub marked : Ident → List Instant → Store → Store
marked a [] s = s
marked a (now ∷ nows) s = marked a nows (mark_attempt_orphaned a now s)

marked_from :
    (a : Ident) (t : Instant) (nows : List Instant) (s : Store) (row : StoredAttempt)
    → get_attempt a s ≡ some row
    → row.orphaned_at ≡ some t
    → (later : StoredAttempt) × (get_attempt a (marked a nows s) ≡ some later)
      × (later.orphaned_at ≡ some t)
marked_from a t [] s row h o = (row, h, o)
marked_from a t (now ∷ nows) s row h o =
    marked_from a t nows (mark_attempt_orphaned a now s) (orphan now row)
      (orphan_found a now s row h) (orphan_keeps_mark now row t o)

-- However often an attempt is marked as orphaned, its mark keeps the time of the first marking, from
-- which its grace period runs; the attempt is in the table and carries no mark before.
pub grace_from_first_mark :
    (a : Ident) (first : Instant) (nows : List Instant) (s : Store) (row : StoredAttempt)
    → get_attempt a s ≡ some row
    → row.orphaned_at ≡ none
    → (later : StoredAttempt) × (get_attempt a (marked a (first ∷ nows) s) ≡ some later)
      × (later.orphaned_at ≡ some first)
unfolding orphan
grace_from_first_mark a first nows s row h o =
    marked_from a first nows (mark_attempt_orphaned a first s) (orphan first row)
      (orphan_found a first s row h) (rw o)

-- The executor's slots in flight.
abbrev pub slots : Ident → List StoredAttempt → ℕ
slots x rows = length (
    filter
      (λ row. contains row.state attempt_non_terminal_states && option_beq row.executor_id (some x))
      rows)

terminal_not_in_flight :
    (s : AttemptState)
    → is_terminal_attempt_state s ≡ true
    → contains s attempt_non_terminal_states ≡ false
unfolding is_terminal_attempt_state
terminal_not_in_flight s h = ground arith

module _ (x : Ident) (c : AttemptChange) (ends : is_terminal_attempt_state c.state ≡ true) where
  slots_down :
      (rows : List StoredAttempt)
      → slots x (update_where (is_attempt c.attempt_id) (set_state c) rows) ≤ slots x rows
  unfolding update_where set_state
  slots_down [] = omega arith
  slots_down (row ∷ rows) = ground (arith, slots_down rows, terminal_not_in_flight c.state ends)

  slots_freed :
      (rows : List StoredAttempt) (row : StoredAttempt)
      → find (is_attempt c.attempt_id) rows ≡ some row
      → contains row.state attempt_non_terminal_states ≡ true
      → row.executor_id ≡ some x
      → slots x (update_where (is_attempt c.attempt_id) (set_state c) rows) < slots x rows
  unfolding find update_where set_state
  slots_freed [] row h f e = absurd (cc h)
  slots_freed (r ∷ rows) row h f e = elim (Bool-cases (r.attempt_id == c.attempt_id)) [
    | inl here ↦
        let same : r ≡ row = ground arith in
        let flying : contains r.state attempt_non_terminal_states ≡ true = rw same f in
        let own : option_beq r.executor_id (some x) ≡ true = rw (same, e) (==_refl x) in
        rw (here, flying, own, terminal_not_in_flight c.state ends) (omega (arith, slots_down rows))
    | inr past ↦ ground (arith, slots_freed rows row)
  ]

-- Ending an attempt of an executor that is in flight, whatever its terminal state, gives the slot
-- back: the executor's number of attempts in flight falls.
pub ending_frees_slot :
    (x : Ident) (c : AttemptChange) (s : Store) (row : StoredAttempt)
    → is_terminal_attempt_state c.state ≡ true
    → get_attempt c.attempt_id s ≡ some row
    → contains row.state attempt_non_terminal_states ≡ true
    → row.executor_id ≡ some x
    → count_running_by_executor x (set_attempt_state c s) < count_running_by_executor x s
unfolding count_running_by_executor set_attempt_state get_attempt
ending_frees_slot x c s row ends found flying own =
    slots_freed x c ends s.attempts row found flying own
