-- ===== src/Store/Attempts.antt =====
-- The attempts table (src/longtask/persistence/attempts.py).
pub mod Laws
use lhgp.Prelude.{
  ℕ, ◌+◌, Bool, true, false, Option, none, some, List, [], ◌∷◌, ◌==◌, nat_eq, ◌&&◌, option_beq,
  if◌then◌else◌, or_else, contains, filter, length,
}
use lhgp.Prelude.Tables.{find, update_where}
use lhgp.Contracts.Axes.{AttemptState, attempt_state_eq}
use lhgp.Contracts.Machine.{is_terminal_attempt_state, attempt_non_terminal_states}
use lhgp.Contracts.Policies.{Ident, Instant, Json, Fields}
use lhgp.Store.Types.{StoredAttempt, Store}
use lhgp.Store.Events.{if_none}

abbrev pub is_attempt : Ident → StoredAttempt → Bool
is_attempt attempt_id row = row.attempt_id == attempt_id

unfoldable pub get_attempt : Ident → Store → Option StoredAttempt
get_attempt attempt_id s = find (is_attempt attempt_id) s.attempts

-- How many attempts an executor has in flight: the query's row for it, or 0 where it has none.
unfoldable pub count_running_by_executor : Ident → Store → ℕ
count_running_by_executor executor_id s = length (
    filter
      (λ row.
        contains row.state attempt_non_terminal_states
        && option_beq row.executor_id (some executor_id))
      s.attempts)

-- The keyword arguments of `set_attempt_state`.
pub record AttemptChange : Type 0 where
  pub attempt_id : Ident
  pub state : AttemptState
  pub now : Instant
  pub error_class : Option Ident
  pub return_code : Option ℕ
  pub clear_orphaned_at : Bool

-- The UPDATE on one row: `started_at` is set once, `terminal_at` by terminal states alone.
unfoldable pub set_state : AttemptChange → StoredAttempt → StoredAttempt
unfolding is_terminal_attempt_state
set_state c row = record row {
  state = c.state;
  started_at =
      if c.state == AttemptState.running
      then if_none row.started_at (some c.now)
      else row.started_at;
  terminal_at = if is_terminal_attempt_state c.state then some c.now else row.terminal_at;
  error_class = if_none c.error_class row.error_class;
  return_code = if_none c.return_code row.return_code;
  orphaned_at = if c.clear_orphaned_at then none else row.orphaned_at;
  updated_at = c.now;
}

unfoldable pub set_attempt_state : AttemptChange → Store → Store
unfolding set_state update_where
set_attempt_state c s = record s {
  attempts = update_where (is_attempt c.attempt_id) (set_state c) s.attempts;
}

unfoldable pub orphan : Instant → StoredAttempt → StoredAttempt
orphan now row = record row {
  state = AttemptState.orphaned;
  orphaned_at = if_none row.orphaned_at (some now);
  updated_at = now;
}

unfoldable pub mark_attempt_orphaned : Ident → Instant → Store → Store
unfolding orphan update_where
mark_attempt_orphaned attempt_id now s = record s {
  attempts = update_where (is_attempt attempt_id) (orphan now) s.attempts;
}

-- The keyword arguments of `register_attempt_handle`.
pub record Handle : Type 0 where
  pub attempt_id : Ident
  pub external_run_id : Ident
  pub session_locator : Ident
  pub recovery_strategy : Ident
  pub process_identity : Option Json
  pub capability_snapshot : Option Json
  pub now : Instant

-- An absent mapping is stored as an empty one. The state is left alone.
unfoldable pub set_handle : Handle → StoredAttempt → StoredAttempt
set_handle h row = record row {
  external_run_id = some h.external_run_id;
  session_locator = some h.session_locator;
  recovery_strategy = some h.recovery_strategy;
  process_identity = or_else h.process_identity (Json.obj Fields.end);
  capability_snapshot = or_else h.capability_snapshot (Json.obj Fields.end);
  handle_registered_at = some h.now;
  updated_at = h.now;
}

unfoldable pub register_attempt_handle : Handle → Store → Store
unfolding set_handle update_where
register_attempt_handle h s = record s {
  attempts = update_where (is_attempt h.attempt_id) (set_handle h) s.attempts;
}
