-- ===== src/Store/History.antt =====
-- Sequences of calls that change the store, and what becomes of a contract. The pruning of events
-- (src/lhgp/persistence/maintenance.py) is not among them
-- (src/longtask/persistence/store.py, leases.py, attempts.py).
pub mod Keeps
pub mod Rules
pub mod Aside
pub mod Validity
pub mod Log
pub mod Redrafting
use lhgp.Prelude.{
  ℕ, ◌≤◌, ◌≡◌, refl, Option, none, some, [], ◌∷◌, inl, inr, ◌⊎◌, Bool-cases, Option-cases,
  List-cases, List, arith, ◌==◌, nat_eq, ==_refl, true, false, Reach, here, next, Reach-append, ◌∙◌,
}
use mathlib.Core.Option
use mathlib.Core.Path.{subst}
use lhgp.Contracts.Axes.{ContractState}
use lhgp.Contracts.Machine.{is_valid_transition, is_terminal_state}
use lhgp.Contracts.Machine.Lifecycle.{terminal_absorbs}
use lhgp.Contracts.Policies.{Ident, ContractDraft}
use lhgp.Goals.Progress.{Texts}
use lhgp.Goals.Amending.{GoalPatch, patch_goal}
use lhgp.Store.Types.{Goal}
use lhgp.Store.Saving.{Saving, save_contract}
use lhgp.Store.Patching.{Patch, patch_contract}
use lhgp.Store.Requests.{replayed_events}
use lhgp.Store.Types.{StoredLease, ContractView, Store, Value, Result, Result-cases, ok, err}
use lhgp.Store.Quiet.{Platform}
use lhgp.Store.Leases.{
  LeaseCall, truthy, seen_by, get_lease, acquire_lease, reclaim_lease, renew_lease, release_lease,
  write_acquired, write_reclaimed, write_renewed, write_released,
}
use lhgp.Store.Events.{append_event, get_events_by_request_id}
use lhgp.Store.Contracts.{
  StateChange, get_contract, changed, set_columns, update_contract_state, change_current,
}
use lhgp.Store.Contracts.Update.{Written, Updated, update_contract_state-Updated, set_columns_self}
use lhgp.Store.Contracts.Replay.{replay_inversion}
use lhgp.Store.WriteBack.{
  WriteBack, WriteBackResult, write_back, change_of, change_state, record_report, log_events,
  EventInput, input_event, append_inputs, anchored,
}
use lhgp.Store.WriteBack.Fence.{Done, write_back-Done}
use lhgp.Store.Attempts.{set_attempt_state, mark_attempt_orphaned, register_attempt_handle}
use lhgp.Store.Attempts.Laws.{Write, written}

-- A call that returned, of the functions that are modelled.
pub data Call (p : Platform) (s t : Store) : Type 0 where
  updated :
      (c : StateChange) (row : ContractView)
      → update_contract_state p c s ≡ ok (row, t)
      → Call p s t
  saved : (c : Saving) (row : ContractView) → save_contract p c s ≡ ok (row, t) → Call p s t
  patched : (c : Patch) (row : ContractView) → patch_contract c s ≡ ok (row, t) → Call p s t
  amended : (x : Texts) (c : GoalPatch) (row : Goal) → patch_goal x c s ≡ ok (row, t) → Call p s t
  wrote_back : (w : WriteBack) (r : WriteBackResult) → write_back p w s ≡ ok (r, t) → Call p s t
  acquired :
      (c : LeaseCall) (h : Ident) (g : ℕ) (l : StoredLease)
      → acquire_lease c h g s ≡ ok (l, t)
      → Call p s t
  reclaimed :
      (c : LeaseCall) (h : Option Ident) (g : ℕ) (u : Value) (l : StoredLease)
      → reclaim_lease c h g u s ≡ ok (l, t)
      → Call p s t
  renewed :
      (c : LeaseCall) (h : Ident) (g : ℕ) (l : StoredLease)
      → renew_lease c h g s ≡ ok (l, t)
      → Call p s t
  released : (c : LeaseCall) (h : Ident) (g : ℕ) → release_lease c h g s ≡ ok (tt, t) → Call p s t
  attempted : (w : Write) → t ≡ written w s → Call p s t

pub data Calls (p : Platform) (s : Store) : Store → Type 0 where
  none_yet : Calls p s s
  then_call : {t u : Store} → Calls p s t → Call p t u → Calls p s u

-- The draft with the soft terms of the second one.
abbrev pub revised : ContractDraft → ContractDraft → ContractDraft
revised a b = record a {
  acceptance = b.acceptance;
  soft_guidance = b.soft_guidance;
  workload_initial_hours = b.workload_initial_hours;
}

-- What becomes of a contract: its state follows the transition rules, its revision does not fall, and
-- its goal, its time of creation and its draft stay, the draft's soft terms excepted.
pub record Follows (a b : ContractView) : Type 0 where
  pub reach : Reach is_valid_transition a.state b.state
  pub revision : a.revision ≤ b.revision
  pub draft : b.draft ≡ revised a.draft b.draft
  pub goal_id : b.goal_id ≡ a.goal_id
  pub created_at : b.created_at ≡ a.created_at

pub Follows-refl : (a : ContractView) → Follows a a
Follows-refl a = record {
  reach = here;
  revision = omega arith;
  draft = refl;
  goal_id = refl;
  created_at = refl;
}

pub Follows-trans : (a b c : ContractView) → Follows a b → Follows b c → Follows a c
Follows-trans a b c f g = record {
  reach = Reach-append f.reach g.reach;
  revision = omega (arith, f.revision, g.revision);
  draft = subst (λ x. c.draft ≡ revised x c.draft) f.draft g.draft;
  goal_id = g.goal_id ∙ f.goal_id;
  created_at = g.created_at ∙ f.created_at;
}
