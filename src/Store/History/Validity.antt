-- ===== src/Store/History/Validity.antt =====
-- Every call keeps the invariant of the contract tables
-- (src/longtask/persistence/store.py, leases.py, attempts.py).
use mathlib.Core.Path.{subst}
use lhgp.Prelude.{ℕ, ◌≡◌, sym, Option, none, some, inl, inr, arith, nat_eq}
use lhgp.Contracts.Axes.{ContractState}
use lhgp.Store.Types.{ContractView, Store, Result-cases, ok}
use lhgp.Store.Quiet.{Platform}
use lhgp.Store.Contracts.{StateChange, update_contract_state}
use lhgp.Store.Contracts.Invariant.{IsValid, Written-IsValid}
use lhgp.Store.Attempts.Laws.{written}
use lhgp.Store.WriteBack.{
  WriteBack, WriteBackResult, write_back, change_of, change_state, record_report, log_events,
}
use lhgp.Store.Saving.Update.{save_cases, Drafted-IsValid}
use lhgp.Store.Patching.Update.{patch_cases, Patched-IsValid}
use lhgp.Store.History.{
  saved, patched, amended, Call, Calls, updated, wrote_back, acquired, reclaimed, renewed, released,
  attempted, none_yet, then_call,
}
use lhgp.Store.History.Keeps.{update_cases, write_back_cases}
use lhgp.Store.History.Aside.{
  IsAside-IsValid, patch_goal-IsAside, acquired-IsAside, reclaimed-IsAside, renewed-IsAside,
  released-IsAside, written-IsAside, record_report-IsAside, log_events-IsAside,
}

module _ (p : Platform) where
  updated-IsValid :
      (s t : Store) (c : StateChange) (row : ContractView)
      → update_contract_state p c s ≡ ok (row, t)
      → IsValid s
      → IsValid t
  updated-IsValid s t c row done v = elim (update_cases p s t c row done) [
    | inl same ↦ subst IsValid (sym same) v
    | inr u ↦ Written-IsValid c u.current s t u.found u.written v
  ]

  changed-IsValid :
      (s t : Store) (w : WriteBack) (o : Option ContractState) (n : Option ℕ)
      → change_state p w o s ≡ ok (n, t)
      → IsValid s
      → IsValid t
  changed-IsValid s t w none n done v = let same : s ≡ t = ground arith in subst IsValid same v
  changed-IsValid s t w (some c) n done v =
      elim (Result-cases (update_contract_state p (change_of w c) s)) [
        | inl (e, bad) ↦ absurd (cc (done, bad))
        | inr ((row, u), good) ↦
            let same : u ≡ t = ground arith in
            subst IsValid same (updated-IsValid s u (change_of w c) row good v)
      ]

  wrote_back-IsValid :
      (s t : Store) (w : WriteBack) (r : WriteBackResult)
      → write_back p w s ≡ ok (r, t)
      → IsValid s
      → IsValid t
  wrote_back-IsValid s t w r done v = elim (write_back_cases p s t w r done) [
    | inl same ↦ subst IsValid (sym same) v
    | inr d ↦
        let reported = IsAside-IsValid s (record_report p w s) (record_report-IsAside p w s) v in
        let changed =
          changed-IsValid (record_report p w s) d.middle w w.contract_state d.revision d.changed
            reported in
        subst IsValid (sym d.after) (
          IsAside-IsValid d.middle (log_events w d.middle).1 (log_events-IsAside w d.middle)
            changed)
  ]

  Call-IsValid : (s t : Store) → Call p s t → IsValid s → IsValid t
  Call-IsValid s t (updated c row done) v = updated-IsValid s t c row done v
  Call-IsValid s t (saved c row done) v = elim (save_cases p c s t row done) [
    | inl same ↦ subst IsValid (sym same) v
    | inr u ↦ Drafted-IsValid c s t u.written v
  ]
  Call-IsValid s t (patched c row done) v = elim (patch_cases c s t row done) [
    | inl same ↦ subst IsValid (sym same) v
    | inr u ↦ Patched-IsValid c s t row u v
  ]
  Call-IsValid s t (amended x c row done) v =
      IsAside-IsValid s t (patch_goal-IsAside x c s t row done) v
  Call-IsValid s t (wrote_back w r done) v = wrote_back-IsValid s t w r done v
  Call-IsValid s t (acquired c h g l done) v =
      IsAside-IsValid s t (acquired-IsAside c s h g l t done) v
  Call-IsValid s t (reclaimed c h g u l done) v =
      IsAside-IsValid s t (reclaimed-IsAside c s h g u l t done) v
  Call-IsValid s t (renewed c h g l done) v =
      IsAside-IsValid s t (renewed-IsAside c s h g l t done) v
  Call-IsValid s t (released c h g done) v = IsAside-IsValid s t (released-IsAside c s h g t done) v
  Call-IsValid s t (attempted w e) v =
      subst IsValid (sym e) (IsAside-IsValid s (written w s) (written-IsAside w s) v)

-- The invariant of the contract tables holds after any sequence of calls that return, drafts, patches,
-- amendments of goals, state changes, write backs, lease calls and attempt writes, replays among them,
-- if it holds before: every snapshot is of a contract of the store, at or before its revision; the
-- snapshot of a contract's current revision is there and agrees with the contract; and all event ids
-- lie below the next one.
pub Calls-IsValid : (p : Platform) (s t : Store) → Calls p s t → IsValid s → IsValid t
Calls-IsValid p s t none_yet v = v
Calls-IsValid p s t (then_call {t = m} calls call) v =
    Call-IsValid p m t call (Calls-IsValid p s m calls v)
