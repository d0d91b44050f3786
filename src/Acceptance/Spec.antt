-- ===== src/Acceptance/Spec.antt =====
-- Evaluating an acceptance spec (src/lhgp/acceptance/spec.py).
mod Words
unfoldable pub use Words.*
use lhgp.Prelude.{
  ℕ, zero, suc, ◌+◌, Bool, true, false, Option, none, some, List, [], ◌∷◌, ◌++◌, ◌==◌, nat_eq,
  if◌then◌else◌, any, or_else,
}
use lhgp.Contracts.Policies.{Ident, user, Json, Items, Fields}
use lhgp.Contracts.Dicts.{get}

abbrev pub first_group : {A : Type 0} → Option A → Option A → Option A
first_group none o = o
first_group (some x) o = some x

abbrev pub checked : Texts → Outcomes → Fields → CheckResult
checked t os fs =
    let kind = or_else (get kind_key fs) (Json.text unknown) in
    let target = or_else (get target_key fs) (Json.text 0) in
    let outcome = or_else (outcome_of (t.identity kind target) os) pending in
    record {
      judge = machine;
      kind = kind;
      target = target;
      outcome = outcome;
      detail = Detail.returned (t.identity kind target) outcome;
    }

abbrev pub leaf_results : Texts → Outcomes → Fields → List CheckResult
leaf_results t os fs = if is_text machine (get judge_key fs) then checked t os fs ∷ [] else []

-- The first of the groups `all` and `any` that is an array is read, and nothing else of the node.
unfoldable mutual
  pub collect_machine : Texts → Outcomes → Json → List CheckResult
  collect_machine t os (Json.obj fs) =
      or_else (first_group (collect_group t os all_key fs) (collect_group t os any_key fs))
        (leaf_results t os fs)
  collect_machine t os _ = []

  pub collect_group : Texts → Outcomes → Ident → Fields → Option (List CheckResult)
  collect_group t os key Fields.end = none
  collect_group t os key (Fields.field k v fs) =
      if k == key then collect_children t os v else collect_group t os key fs

  pub collect_children : Texts → Outcomes → Json → Option (List CheckResult)
  collect_children t os (Json.arr xs) = some (collect_items t os xs)
  collect_children t os _ = none

  pub collect_items : Texts → Outcomes → Items → List CheckResult
  collect_items t os Items.nil = []
  collect_items t os (Items.cons x xs) = collect_machine t os x ++ collect_items t os xs

unfoldable pub evaluate_machine_checks : Texts → Outcomes → Json → List CheckResult
unfolding collect_machine
evaluate_machine_checks t os spec = collect_machine t os spec

-- The last result with an identity stands in the dictionary.
unfoldable pub result_of : Texts → Ident → List CheckResult → Option CheckResult
result_of t key [] = none
result_of t key (r ∷ rs) =
    let later = result_of t key rs in
    elim later [
      | some x ↦ some x
      | none ↦ if t.identity r.kind r.target == key then some r else none
    ]

-- The counters and the list that the evaluation changes.
pub record Tally : Type 0 where
  pub machine_pass : ℕ
  pub machine_fail : ℕ
  pub user_pending : ℕ
  pub results : List CheckResult

abbrev pub count : Ident → Tally → Tally
count outcome n =
    if outcome == pass
    then record n { machine_pass = n.machine_pass + 1 }
    else if outcome == fail
    then record n { machine_fail = n.machine_fail + 1 }
    else n

abbrev pub asked : Fields → CheckResult
asked fs = record {
  judge = user;
  kind = Json.text user_confirm;
  target = or_else (get question_key fs) (Json.text default_question);
  outcome = pending;
  detail = Detail.requires_user;
}

abbrev pub machine_leaf : Option CheckResult → Tally → Ident × Tally
machine_leaf none n = (pending, n)
machine_leaf (some r) n = (r.outcome, count r.outcome n)

unfoldable pub eval_leaf : Texts → List CheckResult → Fields → Tally → Ident × Tally
eval_leaf t rs fs n =
    let kind = or_else (get kind_key fs) (Json.text 0) in
    let target = or_else (get target_key fs) (Json.text 0) in
    if is_text machine (get judge_key fs)
    then machine_leaf (result_of t (t.identity kind target) rs) n
    else if is_text user (get judge_key fs)
    then (
      pending,
      record n { user_pending = n.user_pending + 1; results = n.results ++ asked fs ∷ [] },
    )
    else (pending, n)

unfoldable pub all_of : List Ident → Ident
all_of os =
    if any (λ o. o == fail) os then fail else if any (λ o. o == pending) os then pending else pass

unfoldable pub any_of : List Ident → Ident
any_of os =
    if any (λ o. o == pass) os then pass else if any (λ o. o == pending) os then pending else fail

-- Every child is evaluated, in their order.
abbrev pub Eval : Type 0
Eval = Tally → Ident × Tally

abbrev pub combined : (List Ident → Ident) → List Ident × Tally → Ident × Tally
combined f (os, n) = (f os, n)

unfoldable mutual
  pub eval_node : Texts → List CheckResult → Json → Eval
  eval_node t rs (Json.obj fs) =
      or_else (first_group (eval_group t rs all_of all_key fs) (eval_group t rs any_of any_key fs))
        (eval_leaf t rs fs)
  eval_node t rs _ = λ n. (pending, n)

  pub eval_group : Texts → List CheckResult → (List Ident → Ident) → Ident → Fields → Option Eval
  eval_group t rs f key Fields.end = none
  eval_group t rs f key (Fields.field k v fs) =
      if k == key then eval_children t rs f v else eval_group t rs f key fs

  pub eval_children : Texts → List CheckResult → (List Ident → Ident) → Json → Option Eval
  eval_children t rs f (Json.arr xs) = some (λ n. combined f (eval_items t rs xs n))
  eval_children t rs f _ = none

  pub eval_items : Texts → List CheckResult → Items → Tally → List Ident × Tally
  eval_items t rs Items.nil n = ([], n)
  eval_items t rs (Items.cons x xs) n =
      let (o, m) = eval_node t rs x n in let (os, k) = eval_items t rs xs m in (o ∷ os, k)

abbrev part : (ℕ → Part) → ℕ → List Part
part p zero = []
part p (suc n) = p (suc n) ∷ []

unfoldable pub compose_verdict : Texts → List CheckResult → Json → SpecVerdict
unfolding eval_node
compose_verdict t rs spec =
    let (overall, n) =
      eval_node t rs spec
        (record { machine_pass = 0; machine_fail = 0; user_pending = 0; results = rs }) in
    record {
      outcome = overall;
      results = n.results;
      summary =
          part Part.machine_passed n.machine_pass
          ++ (part Part.machine_failed n.machine_fail ++ part Part.user_waiting n.user_pending);
      machine_pass = n.machine_pass;
      machine_fail = n.machine_fail;
      user_pending = n.user_pending;
    }

-- The spec is a dictionary; for any other value the call raises. Under `any`, a failed check does not
-- make the verdict `fail`, nor does `pass` need every check to pass, although the docstring says so.
unfoldable pub evaluate_stage_acceptance : Texts → Outcomes → Json → Option SpecVerdict
unfolding compose_verdict evaluate_machine_checks
evaluate_stage_acceptance t os (Json.obj fs) =
    some (compose_verdict t (evaluate_machine_checks t os (Json.obj fs)) (Json.obj fs))
evaluate_stage_acceptance t os _ = none
