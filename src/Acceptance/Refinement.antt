-- ===== src/Acceptance/Refinement.antt =====
-- The verdict on a spec decides what the spec says (src/lhgp/acceptance/spec.py).
use lhgp.Prelude.{
  ℕ, ◌+◌, ◌≡◌, refl, Option, none, some, List, [], ◌++◌, ◌==◌, nat_eq, true, false, inl, inr, ◌⊎◌,
  Bool-cases, or_else, arith, All, Bool,
}
use lhgp.Contracts.Policies.{Json, Items, Fields}
use lhgp.Acceptance.Spec.{
  Texts, CheckResult, Outcomes, collect_machine, collect_group, collect_children, collect_items,
  all_key, any_key, machine, judge_key, kind_key, target_key, is_text, first_group, leaf_results,
  eval_node, eval_group, eval_children, eval_items, eval_leaf, Eval, Tally, all_of, any_of,
  SpecVerdict, evaluate_stage_acceptance,
}
use lhgp.Contracts.Dicts.{get}
use lhgp.Acceptance.Validation.{
  PathTo, Problem, validate_node, validate_group, validate_children, validate_items, validate_spec,
  leaf_problems,
}
use lhgp.Acceptance.Reading.{
  holds, every, some_one, every_child, some_child, all_hold, any_holds, leaf_holds,
}
use lhgp.Acceptance.Collected.{judged, IsFound, collected-IsFound, All-of_append}
use lhgp.Acceptance.Decides.{
  Decides, IsOutcome, has_passed, not_failed, judged-IsOutcome, outcome-Decides, all_of-Decides_one,
  any_of-Decides_one, all_of-Decides_none, any_of-Decides_none, of_append_nil, of_node_nil,
  filled_text,
}

module _ (t : Texts) (os : Outcomes) (rs : List CheckResult)
    (decided : All (λ e. IsOutcome e.1) os) where
  machine_leaf-Decides :
      (fs : Fields) (path : PathTo) (n : Tally)
      → is_text machine (get judge_key fs) ≡ true
      → leaf_problems t path fs ≡ []
      → All (IsFound t os rs) (leaf_results t os fs)
      → Decides
          (eval_leaf t rs fs n).0
          (leaf_holds (has_passed t os) false fs)
          (leaf_holds (not_failed t os) true fs)
  unfolding leaf_problems eval_leaf
  machine_leaf-Decides fs path n by_machine ok found =
      let (k, kind) = filled_text t (get kind_key fs) (ground arith) in
      let (x, target) = filled_text t (get target_key fs) (ground arith) in
      let (r, there, same) = (rw (by_machine, kind, target) at found).0 in
      let key = t.identity (Json.text k) (Json.text x) in
      rw (by_machine, kind, target, there, same)
        (outcome-Decides (judged os key) (judged-IsOutcome os key decided))

  leaf-Decides :
      (fs : Fields) (path : PathTo) (n : Tally)
      → leaf_problems t path fs ≡ []
      → All (IsFound t os rs) (leaf_results t os fs)
      → Decides
          (eval_leaf t rs fs n).0
          (leaf_holds (has_passed t os) false fs)
          (leaf_holds (not_failed t os) true fs)
  unfolding eval_leaf
  leaf-Decides fs path n ok found = elim (Bool-cases (is_text machine (get judge_key fs))) [
    | inl by_machine ↦ machine_leaf-Decides fs path n by_machine ok found
    | inr other ↦ rw other (ground arith)
  ]

  -- A group is read by all, or by none; if it is read, its outcome decides it.
  abbrev DecidesGroup :
      Option (List Problem)
      → Option Eval
      → Option (List CheckResult)
      → Option Bool
      → Option Bool
      → Type 0
  DecidesGroup problems eval collected low high =
      ((problems ≡ none) × (eval ≡ none) × (collected ≡ none) × (low ≡ none) × (high ≡ none))
      ⊎ ((e : Eval) × (cs : List CheckResult) × (a : Bool) × (b : Bool) × (eval ≡ some e)
          × (collected ≡ some cs)
          × (low ≡ some a)
          × (high ≡ some b)
          × (All (IsFound t os rs) cs → (n : Tally) → Decides (e n).0 a b))

  group_or_leaf :
      (v1 v2 : Option (List Problem)) (e1 e2 : Option Eval) (c1 c2 : Option (List CheckResult))
      (a1 a2 b1 b2 : Option Bool) (e : Eval) (c : List CheckResult) (a b : Bool) (n : Tally)
      → DecidesGroup v1 e1 c1 a1 b1
      → DecidesGroup v2 e2 c2 a2 b2
      → (v1 ≡ none → v2 ≡ none → All (IsFound t os rs) c → Decides (e n).0 a b)
      → All (IsFound t os rs) (or_else (first_group c1 c2) c)
      → Decides
          (or_else (first_group e1 e2) e n).0
          (or_else (first_group a1 a2) a)
          (or_else (first_group b1 b2) b)
  group_or_leaf v1 v2 e1 e2 c1 c2 a1 a2 b1 b2 e c a b n (inl (i, i1, i2, i3, i4))
        (inl (j, j1, j2, j3, j4)) leaf found =
      rw (i1, i3, i4, j1, j3, j4) (leaf i j (rw (i2, j2) at found))
  group_or_leaf v1 v2 e1 e2 c1 c2 a1 a2 b1 b2 e c a b n (inl (i, i1, i2, i3, i4))
        (inr (f, cs, x, y, j1, j2, j3, j4, decide)) leaf found =
      rw (i1, i3, i4, j1, j3, j4) (decide (rw (i2, j2) at found) n)
  group_or_leaf v1 v2 e1 e2 c1 c2 a1 a2 b1 b2 e c a b n (inr (f, cs, x, y, j1, j2, j3, j4, decide))
        other leaf found =
      rw (j1, j3, j4) (decide (rw (j2) at found) n)

  mutual
    unfolding eval_node collect_machine holds validate_node

    node-Decides :
        (x : Json) (path : PathTo) (n : Tally)
        → validate_node t path x ≡ []
        → All (IsFound t os rs) (collect_machine t os x)
        → Decides
            (eval_node t rs x n).0
            (holds (has_passed t os) false x)
            (holds (not_failed t os) true x)
    node-Decides (Json.obj fs) path n ok found =
        let (one, two, leaf) = of_node_nil _ _ _ _ ok in
        group_or_leaf (validate_group t path all_key fs) (validate_group t path any_key fs)
          (eval_group t rs all_of all_key fs) (eval_group t rs any_of any_key fs)
          (collect_group t os all_key fs) (collect_group t os any_key fs)
          (every (has_passed t os) false all_key fs) (some_one (has_passed t os) false any_key fs)
          (every (not_failed t os) true all_key fs) (some_one (not_failed t os) true any_key fs)
          (eval_leaf t rs fs) (leaf_results t os fs) _ _ n (every-Decides path fs one)
          (some_one-Decides path fs two) (λ i j. leaf-Decides fs path n (leaf i j)) found
    node-Decides Json.null path n ok found = absurd (cc ok)
    node-Decides (Json.bool b) path n ok found = absurd (cc ok)
    node-Decides (Json.num k) path n ok found = absurd (cc ok)
    node-Decides (Json.text k) path n ok found = absurd (cc ok)
    node-Decides (Json.arr xs) path n ok found = absurd (cc ok)

    every-Decides :
        (path : PathTo) (fs : Fields)
        → or_else (validate_group t path all_key fs) [] ≡ []
        → DecidesGroup
            (validate_group t path all_key fs)
            (eval_group t rs all_of all_key fs)
            (collect_group t os all_key fs)
            (every (has_passed t os) false all_key fs)
            (every (not_failed t os) true all_key fs)
    every-Decides path Fields.end ok = inl (refl, refl, refl, refl, refl)
    every-Decides path (Fields.field k v fs) ok = elim (Bool-cases (k == all_key)) [
      | inl same ↦ rw same (every_child-Decides (path ++ _) v (rw same at ok))
      | inr other ↦ rw other (every-Decides path fs (rw other at ok))
    ]

    every_child-Decides :
        (path : PathTo) (v : Json)
        → validate_children t path v ≡ []
        → DecidesGroup
            (some (validate_children t path v))
            (eval_children t rs all_of v)
            (collect_children t os v)
            (every_child (has_passed t os) false v)
            (every_child (not_failed t os) true v)
    every_child-Decides path (Json.arr xs) ok = inr (
      _,
      _,
      _,
      _,
      refl,
      refl,
      refl,
      refl,
      λ found n. items-Decides_all xs path 0 n (of_append_nil _ _ ok).1 found,
    )
    every_child-Decides path Json.null ok = absurd (cc ok)
    every_child-Decides path (Json.bool b) ok = absurd (cc ok)
    every_child-Decides path (Json.num k) ok = absurd (cc ok)
    every_child-Decides path (Json.text k) ok = absurd (cc ok)
    every_child-Decides path (Json.obj fs) ok = absurd (cc ok)

    items-Decides_all :
        (xs : Items) (path : PathTo) (i : ℕ) (n : Tally)
        → validate_items t path i xs ≡ []
        → All (IsFound t os rs) (collect_items t os xs)
        → Decides
            (all_of (eval_items t rs xs n).0)
            (all_hold (has_passed t os) false xs)
            (all_hold (not_failed t os) true xs)
    items-Decides_all Items.nil path i n ok found = all_of-Decides_none
    items-Decides_all (Items.cons x xs) path i n ok found =
        let (here, after) = of_append_nil _ _ ok in
        let (first, rest) = All-of_append (IsFound t os rs) _ _ found in
        all_of-Decides_one _ _ _ _ _ _ (node-Decides x (path ++ _) n here first)
          (items-Decides_all xs path (i + 1) _ after rest)

    some_one-Decides :
        (path : PathTo) (fs : Fields)
        → or_else (validate_group t path any_key fs) [] ≡ []
        → DecidesGroup
            (validate_group t path any_key fs)
            (eval_group t rs any_of any_key fs)
            (collect_group t os any_key fs)
            (some_one (has_passed t os) false any_key fs)
            (some_one (not_failed t os) true any_key fs)
    some_one-Decides path Fields.end ok = inl (refl, refl, refl, refl, refl)
    some_one-Decides path (Fields.field k v fs) ok = elim (Bool-cases (k == any_key)) [
      | inl same ↦ rw same (some_child-Decides (path ++ _) v (rw same at ok))
      | inr other ↦ rw other (some_one-Decides path fs (rw other at ok))
    ]

    some_child-Decides :
        (path : PathTo) (v : Json)
        → validate_children t path v ≡ []
        → DecidesGroup
            (some (validate_children t path v))
            (eval_children t rs any_of v)
            (collect_children t os v)
            (some_child (has_passed t os) false v)
            (some_child (not_failed t os) true v)
    some_child-Decides path (Json.arr xs) ok = inr (
      _,
      _,
      _,
      _,
      refl,
      refl,
      refl,
      refl,
      λ found n. items-Decides_any xs path 0 n (of_append_nil _ _ ok).1 found,
    )
    some_child-Decides path Json.null ok = absurd (cc ok)
    some_child-Decides path (Json.bool b) ok = absurd (cc ok)
    some_child-Decides path (Json.num k) ok = absurd (cc ok)
    some_child-Decides path (Json.text k) ok = absurd (cc ok)
    some_child-Decides path (Json.obj fs) ok = absurd (cc ok)

    items-Decides_any :
        (xs : Items) (path : PathTo) (i : ℕ) (n : Tally)
        → validate_items t path i xs ≡ []
        → All (IsFound t os rs) (collect_items t os xs)
        → Decides
            (any_of (eval_items t rs xs n).0)
            (any_holds (has_passed t os) false xs)
            (any_holds (not_failed t os) true xs)
    items-Decides_any Items.nil path i n ok found = any_of-Decides_none
    items-Decides_any (Items.cons x xs) path i n ok found =
        let (here, after) = of_append_nil _ _ ok in
        let (first, rest) = All-of_append (IsFound t os rs) _ _ found in
        any_of-Decides_one _ _ _ _ _ _ (node-Decides x (path ++ _) n here first)
          (items-Decides_any xs path (i + 1) _ after rest)

-- For a spec without problems, and a run whose outcomes are `pass`, `fail` and `pending` alone, there
-- is a verdict, and it decides what the spec says: it is `pass` where the spec holds even if nothing
-- that is pending does, `fail` where the spec does not hold even if everything that is pending does,
-- and `pending` where that makes the difference. So a failed check under `any` does not fail the spec
-- where another criterion holds. A check is pending if it is so or is missing in the
-- run, and what a user confirms is pending.
pub evaluate_stage_acceptance-Decides :
    (t : Texts) (os : Outcomes) (spec : Json)
    → validate_spec t spec ≡ []
    → All (λ e. IsOutcome e.1) os
    → (v : SpecVerdict) × (evaluate_stage_acceptance t os spec ≡ some v)
      × Decides v.outcome (holds (has_passed t os) false spec) (holds (not_failed t os) true spec)
unfolding evaluate_stage_acceptance validate_spec validate_node
evaluate_stage_acceptance-Decides t os (Json.obj fs) ok decided = (
  _,
  refl,
  node-Decides t os (collect_machine t os (Json.obj fs)) decided (Json.obj fs) [] _ ok
      (collected-IsFound t os (Json.obj fs)),
)
evaluate_stage_acceptance-Decides t os Json.null ok decided = absurd (cc ok)
evaluate_stage_acceptance-Decides t os (Json.bool b) ok decided = absurd (cc ok)
evaluate_stage_acceptance-Decides t os (Json.num n) ok decided = absurd (cc ok)
evaluate_stage_acceptance-Decides t os (Json.text x) ok decided = absurd (cc ok)
evaluate_stage_acceptance-Decides t os (Json.arr xs) ok decided = absurd (cc ok)
