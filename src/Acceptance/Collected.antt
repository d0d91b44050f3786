-- ===== src/Acceptance/Collected.antt =====
-- The results of the checks that a spec names (src/lhgp/acceptance/spec.py, `_collect_machine`,
-- `machine_map` of `compose_verdict`).
use lhgp.Prelude.{
  ◌≡◌, refl, Option, none, some, List, [], ◌∷◌, ◌++◌, ◌==◌, nat_eq, inl, inr, Bool-cases,
  Option-cases, or_else, arith, All, All-map, ==_refl,
}
use lhgp.Contracts.Policies.{Ident, Json, Items, Fields}
use lhgp.Acceptance.Spec.{
  Texts, CheckResult, Outcomes, outcome_of, pending, result_of, collect_machine, collect_group,
  collect_children, collect_items, all_key, any_key, machine, judge_key, is_text, first_group,
  leaf_results,
}
use lhgp.Contracts.Dicts.{get}

-- The outcome of a check: `pending` where the run has none.
abbrev pub judged : Outcomes → Ident → Ident
judged os key = or_else (outcome_of key os) pending

-- The result repeats the outcome of its check.
abbrev pub IsFaithful : Texts → Outcomes → CheckResult → Type 0
IsFaithful t os r = r.outcome ≡ judged os (t.identity r.kind r.target)

-- The results `rs` have one for the check of `r`, with the outcome of the run.
abbrev pub IsFound : Texts → Outcomes → List CheckResult → CheckResult → Type 0
IsFound t os rs r =
    (x : CheckResult) × (result_of t (t.identity r.kind r.target) rs ≡ some x)
    × (x.outcome ≡ judged os (t.identity r.kind r.target))

pub All-append {ℓ κ} :
    {A : Type ℓ} (P : A → Type κ) (xs ys : List A) → All P xs → All P ys → All P (xs ++ ys)
All-append P [] ys h k = k
All-append P (x ∷ xs) ys h k = (h.0, All-append P xs ys h.1 k)

pub All-of_append {ℓ κ} :
    {A : Type ℓ} (P : A → Type κ) (xs ys : List A) → All P (xs ++ ys) → All P xs × All P ys
All-of_append P [] ys h = (tt, h)
All-of_append P (x ∷ xs) ys h = let (a, b) = All-of_append P xs ys h.1 in ((h.0, a), b)

-- What a group or a leaf has collected.
abbrev AllOf {ℓ} : {A : Type 0} → (A → Type ℓ) → Option (List A) → Type ℓ
AllOf P none = Unit
AllOf P (some xs) = All P xs

leaf-All : (t : Texts) (os : Outcomes) (fs : Fields) → All (IsFaithful t os) (leaf_results t os fs)
leaf-All t os fs = elim (Bool-cases (is_text machine (get judge_key fs))) [
  | inl same ↦ rw same (refl, tt)
  | inr other ↦ rw other tt
]

node-All :
    (P : CheckResult → Type 0) (a b : Option (List CheckResult)) (leaf : List CheckResult)
    → AllOf P a
    → AllOf P b
    → All P leaf
    → All P (or_else (first_group a b) leaf)
node-All P none none leaf h k l = l
node-All P none (some ys) leaf h k l = k
node-All P (some xs) b leaf h k l = h

mutual
  unfolding collect_machine

  collected :
      (t : Texts) (os : Outcomes) (x : Json) → All (IsFaithful t os) (collect_machine t os x)
  collected t os (Json.obj fs) =
      node-All (IsFaithful t os) _ _ (leaf_results t os fs) (group-collected t os all_key fs)
        (group-collected t os any_key fs) (leaf-All t os fs)
  collected t os Json.null = tt
  collected t os (Json.bool b) = tt
  collected t os (Json.num n) = tt
  collected t os (Json.text x) = tt
  collected t os (Json.arr xs) = tt

  group-collected :
      (t : Texts) (os : Outcomes) (key : Ident) (fs : Fields)
      → AllOf (IsFaithful t os) (collect_group t os key fs)
  group-collected t os key Fields.end = tt
  group-collected t os key (Fields.field k v fs) = elim (Bool-cases (k == key)) [
    | inl same ↦ rw same (children-collected t os v)
    | inr other ↦ rw other (group-collected t os key fs)
  ]

  children-collected :
      (t : Texts) (os : Outcomes) (v : Json) → AllOf (IsFaithful t os) (collect_children t os v)
  children-collected t os (Json.obj fs) = tt
  children-collected t os Json.null = tt
  children-collected t os (Json.bool b) = tt
  children-collected t os (Json.num n) = tt
  children-collected t os (Json.text x) = tt
  children-collected t os (Json.arr xs) = items-collected t os xs

  items-collected :
      (t : Texts) (os : Outcomes) (xs : Items) → All (IsFaithful t os) (collect_items t os xs)
  items-collected t os Items.nil = tt
  items-collected t os (Items.cons x xs) =
      All-append (IsFaithful t os) (collect_machine t os x) (collect_items t os xs)
        (collected t os x) (items-collected t os xs)

-- A result that is found among later ones is found.
IsFound-later :
    (t : Texts) (os : Outcomes) (r x : CheckResult) (rs : List CheckResult)
    → IsFound t os rs x
    → IsFound t os (r ∷ rs) x
unfolding result_of
IsFound-later t os r x rs (y, there, same) = (y, rw there refl, same)

found_outcome :
    (t : Texts) (os : Outcomes) (key : Ident) (x : CheckResult) (rs : List CheckResult)
    → All (IsFaithful t os) rs
    → result_of t key rs ≡ some x
    → x.outcome ≡ judged os key
unfolding result_of
found_outcome t os key x [] h there = cc
found_outcome t os key x (r ∷ rs) h there = elim (Option-cases (result_of t key rs)) [
  | inl missing ↦ elim (Bool-cases (t.identity r.kind r.target == key)) [
    | inl same ↦
        let i : t.identity r.kind r.target ≡ key = ground arith in
        let e : r ≡ x = ground arith in rw (← e, ← i) (h.0)
    | inr other ↦ absurd (ground arith)
  ]
  | inr (y, later) ↦ found_outcome t os key x rs h.1 (ground arith)
]

IsFound-first :
    (t : Texts) (os : Outcomes) (r : CheckResult) (rs : List CheckResult)
    → IsFaithful t os r
    → All (IsFaithful t os) rs
    → IsFound t os (r ∷ rs) r
unfolding result_of
IsFound-first t os r rs true_to all_true =
    elim (Option-cases (result_of t (t.identity r.kind r.target) rs)) [
      | inl missing ↦ (r, rw (missing, ==_refl (t.identity r.kind r.target)) refl, true_to)
      | inr (x, there) ↦
          (x, rw there refl, found_outcome t os (t.identity r.kind r.target) x rs all_true there)
    ]

pub all-IsFound :
    (t : Texts) (os : Outcomes) (rs : List CheckResult)
    → All (IsFaithful t os) rs
    → All (IsFound t os rs) rs
all-IsFound t os [] h = tt
all-IsFound t os (r ∷ rs) h = (
  IsFound-first t os r rs h.0 h.1,
  All-map rs (λ x k. IsFound-later t os r x rs k) (all-IsFound t os rs h.1),
)

-- Every check that the spec names is found among the results of the spec.
pub collected-IsFound :
    (t : Texts) (os : Outcomes) (spec : Json)
    → All (IsFound t os (collect_machine t os spec)) (collect_machine t os spec)
collected-IsFound t os spec = all-IsFound t os (collect_machine t os spec) (collected t os spec)
