-- ===== src/Acceptance/Tests.antt =====
-- Examples of acceptance specs: a check and a user's confirmation, in a run that has decided the check.
use lhgp.Prelude.{ℕ, ◌+◌, ◌*◌, ◌≡◌, refl, true, false, some, [], ◌∷◌, inl, inr, ◌==◌, nat_eq}
use lhgp.Contracts.Policies.{user, Json, Items, Fields}
use lhgp.Contracts.Dicts.{get}
use lhgp.Acceptance.Spec.{
  Texts, Outcomes, SpecVerdict, outcome_of, all_key, any_key, judge_key, pass, fail, undetermined,
  evaluate_stage_acceptance,
}
use lhgp.Acceptance.Validation.{validate_spec, validate_node, leaf_problems, unexpected_keys}
use lhgp.Acceptance.Reading.{holds}
use lhgp.Acceptance.Decides.{Decides, has_passed, not_failed}
use lhgp.Acceptance.Refinement.{evaluate_stage_acceptance-Decides}
use lhgp.Acceptance.Groups.{
  group, both, check_leaf, check_leaves, any_group_ignored, undetermined_passes,
}
use lhgp.Acceptance.Results.{
  checks_key, evidence_key, check_id_key, outcome_key, extract_verifier_check_results,
  outcome_of-extract_verifier_check_results, in_dictionary,
}

abbrev number : Json → ℕ
number (Json.text x) = x
number v = 0

abbrev texts : Texts
texts = record { identity = λ kind target. number kind * 1000 + number target; blank = λ x. x == 0 }

abbrev user_leaf : Json
user_leaf = Json.obj (Fields.field judge_key (Json.text user) Fields.end)

-- The check, and either another check or the user.
abbrev spec : Json
spec =
    group all_key
      (Items.cons (check_leaf (51, 61)) (
        Items.cons
          (group any_key (Items.cons (check_leaf (52, 62)) (Items.cons user_leaf Items.nil))
            Fields.end)
          Items.nil))
      Fields.end

abbrev outcomes : Outcomes
outcomes = (51061, pass) ∷ (52062, fail) ∷ []

evaluate_stage_acceptance-Decides_example :
    (v : SpecVerdict) × (evaluate_stage_acceptance texts outcomes spec ≡ some v)
    × Decides v.outcome
        (holds (has_passed texts outcomes) false spec)
        (holds (not_failed texts outcomes) true spec)
unfolding validate_spec validate_node leaf_problems unexpected_keys get
evaluate_stage_acceptance-Decides_example =
    evaluate_stage_acceptance-Decides texts outcomes spec refl (inl refl, (inr (inr refl), tt))

abbrev one : Items
one = Items.cons (check_leaf (51, 61)) Items.nil

abbrev other : Items
other = Items.cons user_leaf Items.nil

any_group_ignored_example :
    (validate_spec texts (both one other) ≡ [])
    × (evaluate_stage_acceptance texts outcomes (both one other)
        ≡ evaluate_stage_acceptance texts outcomes (group all_key one Fields.end))
unfolding validate_spec validate_node leaf_problems unexpected_keys get
any_group_ignored_example = any_group_ignored texts outcomes one other refl refl

undetermined_passes_example :
    (v : SpecVerdict) × (evaluate_stage_acceptance texts
        ((51061, undetermined) ∷ [])
        (group all_key (check_leaves ((51, 61) ∷ [])) Fields.end)
      ≡ some v)
    × (v.outcome ≡ pass)
unfolding outcome_of
undetermined_passes_example =
    undetermined_passes texts ((51061, undetermined) ∷ []) ((51, 61) ∷ []) (refl, tt)

-- The dictionary has one check, and the list has it too, and another one.
abbrev payload : Fields
payload = Fields.field checks_key (Json.obj (Fields.field 71 (Json.text pass) Fields.end)) (
    Fields.field evidence_key
      (Json.arr (
        Items.cons
          (Json.obj (
            Fields.field check_id_key (Json.text 71)
              (Fields.field outcome_key (Json.text fail) Fields.end)))
          Items.nil))
      Fields.end)

outcome_of-extract_verifier_check_results_example :
    outcome_of 71 (extract_verifier_check_results payload) ≡ some pass
unfolding get in_dictionary
outcome_of-extract_verifier_check_results_example =
    outcome_of-extract_verifier_check_results 71 payload
