-- ===== src/Acceptance/Reading.antt =====
-- What an acceptance spec says, apart from how it is evaluated (src/lhgp/acceptance/spec.py): `all`
-- is a conjunction, `any` a disjunction, a check holds or not, and so does what a user confirms.
use lhgp.Prelude.{
  Bool, true, false, Option, none, some, ◌==◌, nat_eq, ◌&&◌, ◌||◌, if◌then◌else◌, or_else,
}
use lhgp.Contracts.Policies.{Ident, Json, Items, Fields}
use lhgp.Acceptance.Spec.{
  all_key, any_key, judge_key, kind_key, target_key, machine, is_text, first_group,
}
use lhgp.Contracts.Dicts.{get}

abbrev pub leaf_holds : (Json → Json → Bool) → Bool → Fields → Bool
leaf_holds check confirmed fs =
    if is_text machine (get judge_key fs)
    then check (or_else (get kind_key fs) (Json.text 0)) (or_else (get target_key fs) (Json.text 0))
    else confirmed

unfoldable mutual
  pub holds : (Json → Json → Bool) → Bool → Json → Bool
  holds check confirmed (Json.obj fs) =
      or_else (first_group (every check confirmed all_key fs) (some_one check confirmed any_key fs))
        (leaf_holds check confirmed fs)
  holds check confirmed _ = confirmed

  pub every : (Json → Json → Bool) → Bool → Ident → Fields → Option Bool
  every check confirmed key Fields.end = none
  every check confirmed key (Fields.field k v fs) =
      if k == key then every_child check confirmed v else every check confirmed key fs

  pub some_one : (Json → Json → Bool) → Bool → Ident → Fields → Option Bool
  some_one check confirmed key Fields.end = none
  some_one check confirmed key (Fields.field k v fs) =
      if k == key then some_child check confirmed v else some_one check confirmed key fs

  pub every_child : (Json → Json → Bool) → Bool → Json → Option Bool
  every_child check confirmed (Json.arr xs) = some (all_hold check confirmed xs)
  every_child check confirmed _ = none

  pub some_child : (Json → Json → Bool) → Bool → Json → Option Bool
  some_child check confirmed (Json.arr xs) = some (any_holds check confirmed xs)
  some_child check confirmed _ = none

  pub all_hold : (Json → Json → Bool) → Bool → Items → Bool
  all_hold check confirmed Items.nil = true
  all_hold check confirmed (Items.cons x xs) =
      holds check confirmed x && all_hold check confirmed xs

  pub any_holds : (Json → Json → Bool) → Bool → Items → Bool
  any_holds check confirmed Items.nil = false
  any_holds check confirmed (Items.cons x xs) =
      holds check confirmed x || any_holds check confirmed xs
