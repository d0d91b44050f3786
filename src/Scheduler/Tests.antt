-- ===== src/Scheduler/Tests.antt =====
-- Examples of ticks: a contract that is overdue is seen twice.
use lhgp.Prelude.{◌+◌, ◌≡◌, none, List, [], ◌∷◌, map}
use lhgp.Scheduler.{ClockEntry}
use lhgp.Scheduler.Expiry.{expiries, open_entries, run_ticks, expired_once}

abbrev entries : List ClockEntry
entries =
    record {
      contract_id = 1;
      clock = record { deadline_at = 10; next_wakeup_at = 5; arbitrated_at = none };
    }
    ∷ []

expired_once_example :
    (expiries 1 (run_ticks (11 ∷ 12 ∷ []) entries).0
        + open_entries 1 (run_ticks (11 ∷ 12 ∷ []) entries).1
      ≡ open_entries 1 entries)
    × (map ClockEntry.contract_id (run_ticks (11 ∷ 12 ∷ []) entries).1
        ≡ map ClockEntry.contract_id entries)
expired_once_example = expired_once 1 (11 ∷ 12 ∷ []) entries
