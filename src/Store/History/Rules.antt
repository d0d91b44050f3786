-- ===== src/Store/History/Rules.antt =====
-- A contract follows the transition rules over any sequence of calls
-- (src/longtask/persistence/store.py).
use lhgp.Prelude.{
  ℕ, ◌≡◌, refl, Option, none, some, inl, inr, ◌⊎◌, Bool-cases, arith, ◌==◌, nat_eq, true, Reach,
  here, next,
}
use mathlib.Core.Path.{subst}
use lhgp.Contracts.Axes.{ContractState}
use lhgp.Contracts.Machine.{is_valid_transition}
use lhgp.Contracts.Policies.{Ident}
use lhgp.Store.Types.{ContractView, Store, Result-cases, ok}
use lhgp.Store.Quiet.{Platform}
use lhgp.Store.Contracts.{StateChange, get_contract, changed, set_columns, update_contract_state}
use lhgp.Store.Contracts.Update.{Updated}
use lhgp.Store.WriteBack.{
  WriteBack, WriteBackResult, write_back, change_of, change_state, record_report,
}
use lhgp.Store.Saving.{Saving}
use lhgp.Store.Saving.Update.{Drafted, save_cases}
use lhgp.Store.Patching.{Patch, set_terms}
use lhgp.Store.Patching.Update.{Patched, patch_cases}
use lhgp.Store.History.Aside.{patch_goal-IsAside}
use lhgp.Store.History.{
  saved, patched, amended, Call, Calls, Follows, Follows-refl, Follows-trans, updated, wrote_back,
  acquired, reclaimed, renewed, released, attempted, none_yet, then_call,
}
use lhgp.Store.History.Keeps.{
  update_cases, write_back_cases, acquired-contracts, reclaimed-contracts, renewed-contracts,
  released-contracts, written-contracts, log_events-contracts, record_report-contracts,
}

abbrev Later : Ident → ContractView → Store → Type 0
Later cid a t = (b : ContractView) × (get_contract cid t ≡ some b) × Follows a b

one_step :
    (a b : ContractState)
    → (a ≡ b) ⊎ (is_valid_transition a b ≡ true)
    → Reach is_valid_transition a b
one_step a b (inl same) = rw same here
one_step a b (inr legal) = next here legal

set_columns-Follows :
    (c : StateChange) (a : ContractView)
    → (a.state ≡ c.new_state) ⊎ (is_valid_transition a.state c.new_state ≡ true)
    → Follows a (set_columns c a a)
unfolding changed
set_columns-Follows c a legal = record {
  reach = one_step a.state c.new_state legal;
  revision = omega arith;
  draft = refl;
  goal_id = refl;
  created_at = refl;
}

-- The contract keeps to the rules where a call has changed it, and where it has changed another one.
Updated-Later :
    (c : StateChange) (s t : Store) (row a : ContractView) (cid : Ident)
    → Updated c s row t
    → get_contract cid s ≡ some a
    → Later cid a t
Updated-Later c s t row a cid u there = elim (Bool-cases (c.contract_id == cid)) [
  | inl same ↦
      let i : c.contract_id ≡ cid = ground arith in
      let e : u.current ≡ a = cc (u.found, there, i) in
      let legal =
        subst (λ x. (x.state ≡ c.new_state) ⊎ (is_valid_transition x.state c.new_state ≡ true)) e
          u.legal in
      (set_columns c a a, ground (arith, u.written.contracts cid, e), set_columns-Follows c a legal)
  | inr other ↦ (a, ground (arith, u.written.contracts cid), Follows-refl a)
]

set_terms-Follows : (c : Patch) (a : ContractView) → Follows a (set_terms c a a)
set_terms-Follows c a = record {
  reach = here;
  revision = omega arith;
  draft = refl;
  goal_id = refl;
  created_at = refl;
}

Patched-Later :
    (c : Patch) (s t : Store) (row a : ContractView) (cid : Ident)
    → Patched c s row t
    → get_contract cid s ≡ some a
    → Later cid a t
Patched-Later c s t row a cid u there = elim (Bool-cases (c.contract_id == cid)) [
  | inl same ↦
      let i : c.contract_id ≡ cid = ground arith in
      let e : u.current ≡ a = cc (u.found, there, i) in
      (set_terms c a a, ground (arith, u.written.contracts cid, e), set_terms-Follows c a)
  | inr other ↦ (a, ground (arith, u.written.contracts cid), Follows-refl a)
]

-- A contract that is there is not drafted again.
Drafted-Later :
    (c : Saving) (s t : Store) (a : ContractView) (cid : Ident)
    → Drafted c s t
    → get_contract cid s ≡ some a
    → Later cid a t
Drafted-Later c s t a cid d there = elim (Bool-cases (c.contract_id == cid)) [
  | inl same ↦ let i : c.contract_id ≡ cid = ground arith in absurd (cc (there, d.fresh, i))
  | inr other ↦ (a, ground (arith, d.contracts cid), Follows-refl a)
]

module _ (p : Platform) (cid : Ident) (a : ContractView) where
  kept_Later :
      (s t : Store) → t.contracts ≡ s.contracts → get_contract cid s ≡ some a → Later cid a t
  unfolding get_contract
  kept_Later s t same there = (a, rw same there, Follows-refl a)

  updated_Later :
      (s t : Store) (c : StateChange) (row : ContractView)
      → update_contract_state p c s ≡ ok (row, t)
      → get_contract cid s ≡ some a
      → Later cid a t
  updated_Later s t c row done there = elim (update_cases p s t c row done) [
    | inl same ↦ kept_Later s t (rw same refl) there
    | inr u ↦ Updated-Later c s t row a cid u there
  ]

  changed_Later :
      (s t : Store) (w : WriteBack) (o : Option ContractState) (n : Option ℕ)
      → change_state p w o s ≡ ok (n, t)
      → get_contract cid s ≡ some a
      → Later cid a t
  changed_Later s t w none n done there = kept_Later s t (ground arith) there
  changed_Later s t w (some c) n done there =
      elim (Result-cases (update_contract_state p (change_of w c) s)) [
        | inl (e, bad) ↦ absurd (cc (done, bad))
        | inr ((row, u), good) ↦
            let same : u ≡ t = ground arith in
            subst (Later cid a) same (updated_Later s u (change_of w c) row good there)
      ]

  written_back_Later :
      (s t : Store) (w : WriteBack) (r : WriteBackResult)
      → write_back p w s ≡ ok (r, t)
      → get_contract cid s ≡ some a
      → Later cid a t
  unfolding get_contract
  written_back_Later s t w r done there = elim (write_back_cases p s t w r done) [
    | inl same ↦ kept_Later s t (rw same refl) there
    | inr d ↦
        let (b, found, f) =
          changed_Later (record_report p w s) d.middle w w.contract_state d.revision d.changed
            (rw (record_report-contracts p w s) there) in
        (b, rw (d.after, log_events-contracts w d.middle) found, f)
  ]

  Call-Later : (s t : Store) → Call p s t → get_contract cid s ≡ some a → Later cid a t
  Call-Later s t (updated c row done) there = updated_Later s t c row done there
  Call-Later s t (saved c row done) there = elim (save_cases p c s t row done) [
    | inl same ↦ kept_Later s t (rw same refl) there
    | inr u ↦ Drafted-Later c s t a cid u.written there
  ]
  Call-Later s t (patched c row done) there = elim (patch_cases c s t row done) [
    | inl same ↦ kept_Later s t (rw same refl) there
    | inr u ↦ Patched-Later c s t row a cid u there
  ]
  Call-Later s t (amended x c row done) there =
      kept_Later s t (patch_goal-IsAside x c s t row done).contracts there
  Call-Later s t (wrote_back w r done) there = written_back_Later s t w r done there
  Call-Later s t (acquired c h g l done) there =
      kept_Later s t (acquired-contracts p s t c h g l done) there
  Call-Later s t (reclaimed c h g u l done) there =
      kept_Later s t (reclaimed-contracts p s t c h g u l done) there
  Call-Later s t (renewed c h g l done) there =
      kept_Later s t (renewed-contracts p s t c h g l done) there
  Call-Later s t (released c h g done) there =
      kept_Later s t (released-contracts p s t c h g done) there
  Call-Later s t (attempted w e) there = kept_Later s t (written-contracts p s t w e) there

-- Over any sequence of calls that return, drafts, patches, state changes and write backs of this and
-- other contracts, amendments of goals, lease calls and attempt writes, a contract stays in the store;
-- its state moves along allowed transitions alone, its revision never falls, and its goal, its time of
-- creation and its draft stay as they were, the draft's acceptance, soft guidance and initial workload
-- excepted.
pub contract_obeys_rules :
    (p : Platform) (cid : Ident) (a : ContractView) (s t : Store)
    → Calls p s t
    → get_contract cid s ≡ some a
    → (b : ContractView) × (get_contract cid t ≡ some b) × Follows a b
contract_obeys_rules p cid a s t none_yet there = (a, there, Follows-refl a)
contract_obeys_rules p cid a s t (then_call {t = m} calls call) there =
    let (b, found, f) = contract_obeys_rules p cid a s m calls there in
    let (c, last, g) = Call-Later p cid b m t call found in (c, last, Follows-trans a b c f g)
