-- ===== src/Goals/Tests.antt =====
-- Examples of the progress of a goal: a plan of two stages.
use lhgp.Prelude.{◌≡◌, refl, some, [], ◌∷◌}
use lhgp.Contracts.Policies.{Json, Items, Fields}
use lhgp.Contracts.Dicts.{get, put, set_default}
use lhgp.Store.Types.{ok, err, value_error}
use lhgp.Goals.Progress.{
  Texts, stages_key, completed_key, current_key, status_key, satisfied, completed_of,
  normalize_plan, normal_stages, next_stage, advance_progress,
}
use lhgp.Prelude.Tables.{find, update_where}
use lhgp.Contracts.Axes.{AcceptanceStatus}
use lhgp.Store.Types.{Goal, Store}
use lhgp.Store.Events.{append_event, stored_event}
use lhgp.Store.Contracts.{get_contract}
use lhgp.Store.Samples.{store, contract}
use lhgp.Goals.Progress.{id_key}
use lhgp.Goals.Amending.{
  Advance, contract_id_key, advance_goal, get_goal, bound_contract, goal_stage_dicts, patch_goal,
  write_plan, amended_event,
}
use lhgp.Goals.Amending.Guard.{Advanced, advance_goal-Advanced}
use lhgp.Goals.Completion.{complete_all, complete_all_satisfies}
use lhgp.Goals.Ordering.{complete_in_order}

abbrev texts : Texts
texts = record { shown = λ v. 90; strip = λ x. x; letters = λ x. x ∷ [] }

abbrev plan : Fields
plan =
    Fields.field stages_key
      (Json.arr (Items.cons (Json.text 61) (Items.cons (Json.text 62) Items.nil))) Fields.end

complete_all_satisfies_example :
    (r : Fields) × (complete_all texts plan (61 ∷ 62 ∷ []) Fields.end ≡ ok r)
    × (get status_key r ≡ some (Json.text satisfied))
    × (get current_key r ≡ some Json.null)
    × (completed_of texts (get completed_key r) ≡ ok (61 ∷ 62 ∷ []))
unfolding normalize_plan normal_stages get put set_default
complete_all_satisfies_example =
    complete_all_satisfies texts plan Fields.end 61 (62 ∷ []) refl refl refl

complete_in_order_example :
    (r : Fields) × (complete_all texts plan (61 ∷ []) Fields.end ≡ ok r)
    × (advance_progress texts plan r 61 ≡ err value_error)
unfolding normalize_plan normal_stages get put set_default
complete_in_order_example =
    complete_in_order texts plan Fields.end (61 ∷ []) [] 62 61 refl refl refl

-- A goal whose second stage is bound to a contract that has passed.
abbrev bound_stage : Json
bound_stage =
    Json.obj
      (Fields.field id_key (Json.text 62) (Fields.field contract_id_key (Json.text 1) Fields.end))

abbrev bound_plan : Fields
bound_plan =
    Fields.field stages_key
      (Json.arr (Items.cons (Json.text 61) (Items.cons bound_stage Items.nil))) Fields.end

-- The first stage is completed.
abbrev half_way : Fields
half_way =
    Fields.field completed_key (Json.arr (Items.cons (Json.text 61) Items.nil))
      (Fields.field current_key (Json.text 62) Fields.end)

abbrev goal : Goal
goal = record {
  goal_id = 2;
  revision = 3;
  title = 70;
  objective = 71;
  plan = bound_plan;
  progress = half_way;
  created_at = 1;
  updated_at = 1;
  schema_version = 6;
}

abbrev with_goal : Store
with_goal = record store {
  goals = goal ∷ [];
  contracts = record contract { acceptance_status = AcceptanceStatus.passed } ∷ [];
}

abbrev advance : Advance
advance = record { goal_id = 2; complete_stage = 62; now = 9; expected_revision = 3; actor = 1 }

abbrev result : Goal × Store
unfolding advance_goal
result = elim (advance_goal texts advance with_goal) [ ok r ↦ r | err e ↦ (goal, with_goal) ]

advance_goal-Advanced_example : Advanced texts advance with_goal result.0
unfolding advance_goal get_goal find bound_contract goal_stage_dicts get put set_default
    advance_progress normalize_plan normal_stages next_stage patch_goal write_plan update_where
    append_event stored_event amended_event get_contract
advance_goal-Advanced_example = advance_goal-Advanced texts advance with_goal result.1 result.0 refl
