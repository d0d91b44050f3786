-- ===== src/Acceptance/Groups.antt =====
-- What a group decides (src/lhgp/acceptance/spec.py).
use lhgp.Prelude.{◌≡◌, refl, some, List, [], ◌∷◌, ◌++◌, nat_eq, All, append_nil}
use lhgp.Contracts.Policies.{Ident, Json, Items, Fields}
use lhgp.Acceptance.Spec.{
  Texts, CheckResult, Outcomes, Tally, SpecVerdict, outcome_of, pass, undetermined, all_key,
  any_key, judge_key, kind_key, target_key, machine, eval_node, eval_leaf, all_of, collect_machine,
  collect_items, eval_items, evaluate_stage_acceptance, compose_verdict, evaluate_machine_checks,
}
use lhgp.Contracts.Dicts.{get}
use lhgp.Acceptance.Validation.{validate_spec, validate_node, unexpected_keys}
use lhgp.Acceptance.Collected.{IsFound, collected-IsFound, All-of_append}

abbrev pub group : Ident → Items → Fields → Json
group key xs fs = Json.obj (Fields.field key (Json.arr xs) fs)

-- A spec with both groups.
abbrev pub both : Items → Items → Json
both xs ys = group all_key xs (Fields.field any_key (Json.arr ys) Fields.end)

no_problems {ℓ} :
    {A : Type ℓ} (xs ys : List A) → xs ++ [] ≡ [] → ys ++ [] ≡ [] → (xs ++ ys) ++ [] ≡ []
no_problems xs ys h k = rw (append_nil (xs ++ ys), ← append_nil xs, h, ← append_nil ys, k) refl

both_valid :
    (t : Texts) (xs ys : Items)
    → validate_spec t (group all_key xs Fields.end) ≡ []
    → validate_spec t (group any_key ys Fields.end) ≡ []
    → validate_spec t (both xs ys) ≡ []
unfolding validate_spec validate_node unexpected_keys
both_valid t xs ys h k = no_problems _ _ h k

-- A spec with the groups `all` and `any`, neither of which has a problem by itself, has no problem, and
-- its verdict is that of `all` alone: `any` is never read.
pub any_group_ignored :
    (t : Texts) (os : Outcomes) (xs ys : Items)
    → validate_spec t (group all_key xs Fields.end) ≡ []
    → validate_spec t (group any_key ys Fields.end) ≡ []
    → (validate_spec t (both xs ys) ≡ [])
      × (evaluate_stage_acceptance t os (both xs ys)
          ≡ evaluate_stage_acceptance t os (group all_key xs Fields.end))
unfolding evaluate_stage_acceptance compose_verdict eval_node evaluate_machine_checks
    collect_machine
any_group_ignored t os xs ys h k = (both_valid t xs ys h k, refl)

abbrev pub check_leaf : Ident × Ident → Json
check_leaf (kind, target) = Json.obj (
    Fields.field judge_key (Json.text machine) (
      Fields.field kind_key (Json.text kind)
        (Fields.field target_key (Json.text target) Fields.end)))

abbrev pub check_leaves : List (Ident × Ident) → Items
check_leaves [] = Items.nil
check_leaves (c ∷ cs) = Items.cons (check_leaf c) (check_leaves cs)

-- The run could not decide the check.
abbrev pub IsUndetermined : Texts → Outcomes → Ident × Ident → Type 0
IsUndetermined t os (kind, target) =
    outcome_of (t.identity (Json.text kind) (Json.text target)) os ≡ some undetermined

leaf_undetermined :
    (t : Texts) (os : Outcomes) (rs : List CheckResult) (c : Ident × Ident) (n : Tally)
    → IsUndetermined t os c
    → All (IsFound t os rs) (collect_machine t os (check_leaf c))
    → (eval_node t rs (check_leaf c) n).0 ≡ undetermined
unfolding eval_node eval_leaf get collect_machine
leaf_undetermined t os rs (kind, target) n h ((r, there, same), rest) = rw (there, same, h) refl

leaves_pass :
    (t : Texts) (os : Outcomes) (rs : List CheckResult) (cs : List (Ident × Ident)) (n : Tally)
    → All (IsUndetermined t os) cs
    → All (IsFound t os rs) (collect_items t os (check_leaves cs))
    → all_of (eval_items t rs (check_leaves cs) n).0 ≡ pass
unfolding eval_node collect_machine all_of
leaves_pass t os rs [] n h found = refl
leaves_pass t os rs (c ∷ cs) n h found =
    let (first, rest) = All-of_append (IsFound t os rs) _ _ found in
    rw (leaf_undetermined t os rs c n h.0 first)
      (leaves_pass t os rs cs (eval_node t rs (check_leaf c) n).1 h.1 rest)

-- A spec whose checks are all undetermined, under `all`, passes.
pub undetermined_passes :
    (t : Texts) (os : Outcomes) (cs : List (Ident × Ident))
    → All (IsUndetermined t os) cs
    → (v : SpecVerdict) × (evaluate_stage_acceptance t os
          (group all_key (check_leaves cs) Fields.end)
        ≡ some v)
      × (v.outcome ≡ pass)
unfolding evaluate_stage_acceptance compose_verdict eval_node evaluate_machine_checks
    collect_machine
undetermined_passes t os cs h = (
  _,
  refl,
  leaves_pass t os _ cs _ h (collected-IsFound t os (group all_key (check_leaves cs) Fields.end)),
)
