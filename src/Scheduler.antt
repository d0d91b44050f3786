-- ===== src/Scheduler.antt =====
-- The clock of the scheduler (src/lhgp/scheduler/ticker.py).
pub mod Expiry
mod Tests
use lhgp.Prelude.{
  Bool, true, false, Option, none, some, List, [], ◌∷◌, ◌++◌, not, ltb, leb, if◌then◌else◌,
}
use lhgp.Contracts.Policies.{Ident, Instant}

pub record ContractClock : Type 0 where
  pub deadline_at : Instant
  pub next_wakeup_at : Instant
  pub arbitrated_at : Option Instant

pub record ClockEntry : Type 0 where
  pub contract_id : Ident
  pub clock : ContractClock

-- The texts "promote:<id>" and "contract/expired:<id>".
pub data Emitted : Type 0 where
  promote expired : Ident → Emitted

unfoldable pub is_overdue : ContractClock → Instant → Bool
is_overdue clock now = ltb clock.deadline_at now

abbrev pub wakened : Instant → ClockEntry → List Emitted
wakened now entry =
    if leb entry.clock.next_wakeup_at now then Emitted.promote entry.contract_id ∷ [] else []

abbrev pub arbitrated : Instant → ClockEntry → Option Instant → List Emitted × ClockEntry
arbitrated now entry none = (
  Emitted.expired entry.contract_id ∷ [],
  record entry { clock = record entry.clock { arbitrated_at = some now } },
)
arbitrated now entry (some at) = ([], entry)

-- What is emitted for an entry, and the entry that is kept.
unfoldable pub tick_entry : Instant → ClockEntry → List Emitted × ClockEntry
unfolding is_overdue
tick_entry now entry =
    if not (is_overdue entry.clock now)
    then (wakened now entry, entry)
    else arbitrated now entry entry.clock.arbitrated_at

unfoldable pub run_tick : Instant → List ClockEntry → List Emitted × List ClockEntry
unfolding tick_entry
run_tick now [] = ([], [])
run_tick now (entry ∷ entries) =
    let (es, kept) = tick_entry now entry in
    let (rest, others) = run_tick now entries in (es ++ rest, kept ∷ others)
