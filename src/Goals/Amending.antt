-- ===== src/Goals/Amending.antt =====
-- Amending and advancing a goal of the store (src/longtask/persistence/store.py, `patch_goal`,
-- `advance_goal`).
pub mod Guard
use lhgp.Prelude.{
  ℕ, ◌+◌, ◌≡◌, ◌≢◌, refl, ◌⊎◌, inl, inr, Bool, true, false, Option, none, some, List, [], ◌∷◌, ◌==◌,
  nat_eq, not, ◌||◌, if◌then◌else◌, or_else, arith, Option-cases, Bool-cases, sym,
}
use lhgp.Prelude.Tables.{find, update_where, find_holds}
use lhgp.Contracts.Axes.{AcceptanceStatus, acceptance_eq}
use lhgp.Contracts.Policies.{Ident, Instant, user, Json, Items, Fields}
use lhgp.Contracts.Dicts.{get, as_true}
use lhgp.Store.EventType.{EventType}
use lhgp.Store.Types.{
  Goal, Store, ContractView, Value, Result, Result-cases, ok, err, store_error, value_error,
  revision_conflict, Action,
}
use lhgp.Store.Events.{NewEvent, append_event, if_none}
use lhgp.Store.Contracts.{get_contract, revision_differs}
use lhgp.Goals.Progress.{Texts, text_of, stages_key, id_key, normalize_plan, advance_progress}

abbrev pub contract_id_key : Ident
contract_id_key = 48

-- `STORE_SCHEMA_VERSION`
abbrev pub store_schema_version : ℕ
store_schema_version = 6

-- The arguments of `patch_goal`.
pub record GoalPatch : Type 0 where
  pub goal_id : Ident
  pub now : Instant
  pub plan : Option Fields
  pub progress : Option Fields
  pub expected_revision : Option ℕ
  pub actor : Ident

abbrev pub is_goal : Ident → Goal → Bool
is_goal goal_id row = row.goal_id == goal_id

-- The goal itself; the view of its contracts that is read with it is not modelled.
unfoldable pub get_goal : Ident → Store → Option Goal
get_goal goal_id s = find (is_goal goal_id) s.goals

abbrev pub set_plan : GoalPatch → Goal → Fields → Goal → Goal
set_plan c current plan row = record row {
  revision = current.revision + 1;
  plan = plan;
  progress = or_else c.progress current.progress;
  updated_at = c.now;
}

unfoldable pub amended_event : GoalPatch → Goal → Fields → NewEvent
amended_event c current plan = record {
  contract_id = none;
  event_type = EventType.goal_amended;
  payload =
      ("revision", Value.num (current.revision + 1))
      ∷ ("plan", Value.json (Json.obj plan))
      ∷ ("progress", Value.json (Json.obj (or_else c.progress current.progress)))
      ∷ [];
  now = c.now;
  attempt_id = none;
  lease_generation = none;
  request_id = none;
  actor = c.actor;
  schema_version = store_schema_version;
  goal_id = some c.goal_id;
  contract_revision = none;
  role = some user;
  payload_schema_version = none;
}

unfoldable pub write_plan : GoalPatch → Goal → Fields → Store → Store
unfolding append_event
write_plan c current plan s =
    (append_event (amended_event c current plan)
      (record s { goals = update_where (is_goal c.goal_id) (set_plan c current plan) s.goals })).1

abbrev pub found_goal : Option Goal → Store → Result (Goal × Store)
found_goal none s = err store_error
found_goal (some row) s = ok (row, s)

abbrev pub amend : GoalPatch → Goal → Result Fields → Action Goal
amend c current (err e) s = err e
amend c current (ok plan) s =
    found_goal (get_goal c.goal_id (write_plan c current plan s)) (write_plan c current plan s)

unfoldable pub patch_goal : Texts → GoalPatch → Action Goal
patch_goal t c s = elim (get_goal c.goal_id s) [
  | none ↦ err store_error
  | some current ↦
      if revision_differs c.expected_revision current.revision
      then err revision_conflict
      else amend c current (normalize_plan t (or_else c.plan current.plan)) s
]

-- The stages of a plan that are dictionaries; anything else is passed over.
abbrev pub dictionaries : Items → List Fields
dictionaries Items.nil = []
dictionaries (Items.cons (Json.obj fs) xs) = fs ∷ dictionaries xs
dictionaries (Items.cons _ xs) = dictionaries xs

abbrev pub stage_list : Option Json → List Fields
stage_list (some (Json.arr xs)) = dictionaries xs
stage_list _ = []

unfoldable pub goal_stage_dicts : Fields → List Fields
goal_stage_dicts plan = stage_list (get stages_key plan)

abbrev pub is_stage : Texts → Ident → Fields → Bool
is_stage t id stage = text_of t (or_else (get id_key stage) (Json.text 0)) == id

abbrev pub bound_of : Texts → Option Fields → Option Ident
bound_of t none = none
bound_of t (some stage) = elim (as_true (get contract_id_key stage)) [
  | none ↦ none
  | some v ↦ some (text_of t v)
]

-- The contract that the stage is bound to, if it is bound to one.
unfoldable pub bound_contract : Texts → Fields → Ident → Option Ident
unfolding goal_stage_dicts
bound_contract t plan complete_stage =
    bound_of t (find (is_stage t complete_stage) (goal_stage_dicts plan))

abbrev pub may_advance : Ident → Option ContractView → Bool
may_advance goal_id none = false
may_advance goal_id (some row) =
    if row.goal_id == goal_id then row.acceptance_status == AcceptanceStatus.passed else false

abbrev pub bound_passes : Ident → Option Ident → Store → Bool
bound_passes goal_id none s = true
bound_passes goal_id (some contract_id) s = may_advance goal_id (get_contract contract_id s)

-- The arguments of `advance_goal`.
pub record Advance : Type 0 where
  pub goal_id : Ident
  pub complete_stage : Ident
  pub now : Instant
  pub expected_revision : ℕ
  pub actor : Ident

abbrev pub progress_patch : Advance → Fields → GoalPatch
progress_patch c progress = record {
  goal_id = c.goal_id;
  now = c.now;
  plan = none;
  progress = some progress;
  expected_revision = some c.expected_revision;
  actor = c.actor;
}

abbrev pub patch_progress : Texts → Advance → Result Fields → Action Goal
patch_progress t c (err e) s = err e
patch_progress t c (ok progress) s = patch_goal t (progress_patch c progress) s

unfoldable pub advance_goal : Texts → Advance → Action Goal
advance_goal t c s = elim (get_goal c.goal_id s) [
  | none ↦ err store_error
  | some goal ↦
      if bound_passes c.goal_id (bound_contract t goal.plan c.complete_stage) s
      then patch_progress t c (advance_progress t goal.plan goal.progress c.complete_stage) s
      else err value_error
]
