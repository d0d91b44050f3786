-- ===== src/Scheduler/Expiry.antt =====
-- How often a contract expires (src/lhgp/scheduler/ticker.py, `run_tick`).
use lhgp.Prelude.{
  ℕ, ◌+◌, ◌≡◌, refl, true, false, Option, none, some, List, [], ◌∷◌, ◌++◌, ◌==◌, nat_eq, map,
  if◌then◌else◌, arith, inl, inr, Option-cases, Bool, ◌∙◌,
}
use lhgp.Contracts.Policies.{Ident, Instant}
use lhgp.Scheduler.{ClockEntry, Emitted, is_overdue, tick_entry, run_tick}

-- The expiries of a contract among what is emitted.
abbrev pub expiries : Ident → List Emitted → ℕ
expiries cid [] = 0
expiries cid (Emitted.promote i ∷ es) = expiries cid es
expiries cid (Emitted.expired i ∷ es) = (if i == cid then 1 else 0) + expiries cid es

abbrev is_open : Option Instant → Bool
is_open none = true
is_open (some at) = false

-- The entries of a contract that have not been arbitrated.
abbrev pub open_entries : Ident → List ClockEntry → ℕ
open_entries cid [] = 0
open_entries cid (entry ∷ entries) =
    (if entry.contract_id == cid then if is_open entry.clock.arbitrated_at then 1 else 0 else 0)
    + open_entries cid entries

-- The ticks at the given instants, one after the other.
unfoldable pub run_ticks : List Instant → List ClockEntry → List Emitted × List ClockEntry
unfolding run_tick
run_ticks [] entries = ([], entries)
run_ticks (now ∷ later) entries =
    let (es, kept) = run_tick now entries in
    let (rest, last) = run_ticks later kept in (es ++ rest, last)

expiries-append :
    (cid : Ident) (xs ys : List Emitted)
    → expiries cid (xs ++ ys) ≡ expiries cid xs + expiries cid ys
expiries-append cid [] ys = omega arith
expiries-append cid (Emitted.promote i ∷ xs) ys = expiries-append cid xs ys
expiries-append cid (Emitted.expired i ∷ xs) ys = omega (arith, expiries-append cid xs ys)

-- An entry expires as often as it stops to be open.
entry_balance :
    (cid : Ident) (now : Instant) (entry : ClockEntry)
    → expiries cid (tick_entry now entry).0 + open_entries cid ((tick_entry now entry).1 ∷ [])
      ≡ open_entries cid (entry ∷ [])
unfolding tick_entry is_overdue
entry_balance cid now entry = elim (Option-cases entry.clock.arbitrated_at) [
  | inl never ↦ ground arith
  | inr (at, before) ↦ ground arith
]

tick_balance :
    (cid : Ident) (now : Instant) (entries : List ClockEntry)
    → expiries cid (run_tick now entries).0 + open_entries cid (run_tick now entries).1
      ≡ open_entries cid entries
unfolding run_tick
tick_balance cid now [] = refl
tick_balance cid now (entry ∷ entries) = omega (
  arith,
  expiries-append cid (tick_entry now entry).0 (run_tick now entries).0,
  entry_balance cid now entry,
  tick_balance cid now entries,
)

same_id :
    (now : Instant) (entry : ClockEntry) → (tick_entry now entry).1.contract_id ≡ entry.contract_id
unfolding tick_entry is_overdue
same_id now entry = elim (Option-cases entry.clock.arbitrated_at) [
  | inl never ↦ ground arith
  | inr (at, before) ↦ ground arith
]

same_ids :
    (now : Instant) (entries : List ClockEntry)
    → map ClockEntry.contract_id (run_tick now entries).1 ≡ map ClockEntry.contract_id entries
unfolding run_tick
same_ids now [] = refl
same_ids now (entry ∷ entries) = rw (same_id now entry, same_ids now entries) refl

-- Over any sequence of ticks, at whatever instants, the entries stay the same contracts in the same
-- order, and of each contract as many expiries are emitted as entries of it stop to be open: at most
-- one for each entry that has not been arbitrated, and none for an entry that has.
pub expired_once :
    (cid : Ident) (times : List Instant) (entries : List ClockEntry)
    → (expiries cid (run_ticks times entries).0 + open_entries cid (run_ticks times entries).1
        ≡ open_entries cid entries)
      × (map ClockEntry.contract_id (run_ticks times entries).1
          ≡ map ClockEntry.contract_id entries)
unfolding run_ticks
expired_once cid [] entries = (omega arith, refl)
expired_once cid (now ∷ later) entries =
    let next = (run_tick now entries).1 in
    let (balance, ids) = expired_once cid later next in
    (
      omega (
        arith,
        expiries-append cid (run_tick now entries).0 (run_ticks later next).0,
        tick_balance cid now entries,
        balance,
      ),
      ids ∙ same_ids now entries,
    )
