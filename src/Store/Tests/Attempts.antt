-- ===== src/Store/Tests/Attempts.antt =====
-- Examples of writes on the attempts table.
use lhgp.Prelude.{◌≡◌, refl, ◌<◌, false, some, [], ◌∷◌}
use lhgp.Prelude.Tables.{find}
use lhgp.Contracts.Axes.{AttemptState}
use lhgp.Contracts.Machine.{is_terminal_attempt_state}
use lhgp.Store.Types.{StoredAttempt}
use lhgp.Store.Attempts.{AttemptChange, get_attempt, set_attempt_state, count_running_by_executor}
use lhgp.Store.Attempts.Laws.{
  Write, written_all, Keeps, marked, attempt_times_kept, grace_from_first_mark, ending_frees_slot,
}
use lhgp.Store.Samples.{store, attempt}

abbrev failure : AttemptChange
failure = record {
  attempt_id = 11;
  state = AttemptState.failed;
  now = 50;
  error_class = some 71;
  return_code = some 1;
  clear_orphaned_at = false;
}

attempt_times_kept_example :
    (later : StoredAttempt) × (get_attempt 11
        (written_all (Write.orphaned 11 45 ∷ Write.state failure ∷ []) store)
      ≡ some later)
    × Keeps attempt later
unfolding get_attempt find
attempt_times_kept_example =
    attempt_times_kept (Write.orphaned 11 45 ∷ Write.state failure ∷ []) 11 store attempt refl

grace_from_first_mark_example :
    (later : StoredAttempt) × (get_attempt 11 (marked 11 (45 ∷ 46 ∷ 47 ∷ []) store) ≡ some later)
    × (later.orphaned_at ≡ some 45)
unfolding get_attempt find
grace_from_first_mark_example = grace_from_first_mark 11 45 (46 ∷ 47 ∷ []) store attempt refl refl

ending_frees_slot_example :
    count_running_by_executor 7 (set_attempt_state failure store)
    < count_running_by_executor 7 store
unfolding get_attempt find is_terminal_attempt_state
ending_frees_slot_example = ending_frees_slot 7 failure store attempt refl refl refl refl
