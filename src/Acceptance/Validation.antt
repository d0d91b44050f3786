-- ===== src/Acceptance/Validation.antt =====
-- Validating an acceptance spec (src/lhgp/acceptance/spec.py, `validate_spec`).
--
-- The branch for an agent as judge comes after the test for the judges, and is never reached.
use lhgp.Prelude.{
  ℕ, ◌+◌, Bool, true, false, Option, none, some, List, [], ◌∷◌, ◌++◌, ◌==◌, nat_eq, ◌||◌,
  if◌then◌else◌, not,
}
use lhgp.Contracts.Policies.{Ident, user, Json, Items, Fields}
use lhgp.Acceptance.Spec.{
  Texts, all_key, any_key, judge_key, kind_key, target_key, machine, is_text,
}
use lhgp.Contracts.Dicts.{get}

pub data Step : Type 0 where
  at_key : Ident → Step
  at_index : ℕ → Step

abbrev pub PathTo : Type 0
PathTo = List Step

-- The error texts, each with the path of its node.
pub data Problem : Type 0 where
  not_an_object not_an_array empty_group bad_judge no_kind no_target : PathTo → Problem
  unexpected_key : PathTo → Ident → Problem

abbrev pub is_filled : Texts → Option Json → Bool
is_filled t (some (Json.text x)) = not (t.blank x)
is_filled t _ = false

unfoldable pub leaf_problems : Texts → PathTo → Fields → List Problem
leaf_problems t path fs =
    if is_text machine (get judge_key fs)
    then (if is_filled t (get kind_key fs) then [] else Problem.no_kind path ∷ [])
      ++ (if is_filled t (get target_key fs) then [] else Problem.no_target path ∷ [])
    else if is_text user (get judge_key fs)
    then []
    else Problem.bad_judge path ∷ []

abbrev is_combinator : Ident → Bool
is_combinator k = k == all_key || k == any_key

unfoldable pub unexpected_keys : PathTo → Fields → List Problem
unexpected_keys path Fields.end = []
unexpected_keys path (Fields.field k v fs) =
    (if is_combinator k then [] else Problem.unexpected_key path k ∷ []) ++ unexpected_keys path fs

-- The problems of the groups that are there; `none` where neither is.
abbrev pub both_groups : Option (List Problem) → Option (List Problem) → Option (List Problem)
both_groups none ys = ys
both_groups (some xs) none = some xs
both_groups (some xs) (some ys) = some (xs ++ ys)

abbrev pub of_node : Option (List Problem) → List Problem → List Problem → List Problem
of_node none keys leaf = leaf
of_node (some xs) keys leaf = xs ++ keys

abbrev is_empty : Items → Bool
is_empty Items.nil = true
is_empty (Items.cons x xs) = false

unfoldable mutual
  pub validate_node : Texts → PathTo → Json → List Problem
  validate_node t path (Json.obj fs) =
      of_node (both_groups (validate_group t path all_key fs) (validate_group t path any_key fs))
        (unexpected_keys path fs) (leaf_problems t path fs)
  validate_node t path _ = Problem.not_an_object path ∷ []

  pub validate_group : Texts → PathTo → Ident → Fields → Option (List Problem)
  validate_group t path key Fields.end = none
  validate_group t path key (Fields.field k v fs) =
      if k == key
      then some (validate_children t (path ++ Step.at_key key ∷ []) v)
      else validate_group t path key fs

  pub validate_children : Texts → PathTo → Json → List Problem
  validate_children t path (Json.arr xs) =
      (if is_empty xs then Problem.empty_group path ∷ [] else []) ++ validate_items t path 0 xs
  validate_children t path _ = Problem.not_an_array path ∷ []

  pub validate_items : Texts → PathTo → ℕ → Items → List Problem
  validate_items t path i Items.nil = []
  validate_items t path i (Items.cons x xs) =
      validate_node t (path ++ Step.at_index i ∷ []) x ++ validate_items t path (i + 1) xs

-- The path begins at the text `spec`.
unfoldable pub validate_spec : Texts → Json → List Problem
unfolding validate_node
validate_spec t spec = validate_node t [] spec
