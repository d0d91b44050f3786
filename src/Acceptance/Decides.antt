-- ===== src/Acceptance/Decides.antt =====
-- Outcomes against what is known of a spec (src/lhgp/acceptance/spec.py).
use lhgp.Prelude.{
  ◌≡◌, refl, Option, none, some, List, [], ◌∷◌, ◌++◌, ◌==◌, nat_eq, true, false, inl, inr, ◌⊎◌,
  Bool-cases, or_else, arith, All, Bool, not, ◌&&◌, ◌||◌,
}
use lhgp.Contracts.Policies.{Ident, Json}
use lhgp.Acceptance.Spec.{Texts, Outcomes, outcome_of, pending, pass, fail, all_of, any_of}
use lhgp.Acceptance.Validation.{Problem, is_filled, of_node, both_groups}
use lhgp.Acceptance.Collected.{judged}

-- An outcome against the two readings of what is pending, as not holding and as holding.
abbrev pub Decides : Ident → Bool → Bool → Type 0
Decides o low high =
    ((o ≡ pass) × (low ≡ true) × (high ≡ true))
    ⊎ (((o ≡ pending) × (low ≡ false) × (high ≡ true))
        ⊎ ((o ≡ fail) × (low ≡ false) × (high ≡ false)))

abbrev pub IsOutcome : Ident → Type 0
IsOutcome o = (o ≡ pass) ⊎ ((o ≡ pending) ⊎ (o ≡ fail))

-- A check holds if it has passed.
abbrev pub has_passed : Texts → Outcomes → Json → Json → Bool
has_passed t os kind target = judged os (t.identity kind target) == pass

-- A check may hold if it has not failed.
abbrev pub not_failed : Texts → Outcomes → Json → Json → Bool
not_failed t os kind target = not (judged os (t.identity kind target) == fail)

pub judged-IsOutcome :
    (os : Outcomes) (key : Ident) → All (λ e. IsOutcome e.1) os → IsOutcome (judged os key)
unfolding outcome_of
judged-IsOutcome [] key h = inr (inl refl)
judged-IsOutcome ((k, o) ∷ os) key h = elim (Bool-cases (k == key)) [
  | inl same ↦ rw same (h.0)
  | inr other ↦ rw other (judged-IsOutcome os key h.1)
]

pub outcome-Decides : (o : Ident) → IsOutcome o → Decides o (o == pass) (not (o == fail))
outcome-Decides o (inl e) = rw e (inl (refl, refl, refl))
outcome-Decides o (inr (inl e)) = rw e (inr (inl (refl, refl, refl)))
outcome-Decides o (inr (inr e)) = rw e (inr (inr (refl, refl, refl)))

pub all_of-Decides_one :
    (o : Ident) (os : List Ident) (a b c d : Bool)
    → Decides o a b
    → Decides (all_of os) c d
    → Decides (all_of (o ∷ os)) (a && c) (b && d)
unfolding all_of
all_of-Decides_one o os a b c d h k = ground arith

pub any_of-Decides_one :
    (o : Ident) (os : List Ident) (a b c d : Bool)
    → Decides o a b
    → Decides (any_of os) c d
    → Decides (any_of (o ∷ os)) (a || c) (b || d)
unfolding any_of
any_of-Decides_one o os a b c d h k = ground arith

pub all_of-Decides_none : Decides (all_of []) true true
unfolding all_of
all_of-Decides_none = inl (refl, refl, refl)

pub any_of-Decides_none : Decides (any_of []) false false
unfolding any_of
any_of-Decides_none = inr (inr (refl, refl, refl))

pub of_append_nil {ℓ} : {A : Type ℓ} (xs ys : List A) → xs ++ ys ≡ [] → (xs ≡ []) × (ys ≡ [])
of_append_nil [] ys h = (refl, h)
of_append_nil (x ∷ xs) ys h = absurd (cc h)

-- A node without problems has none in its groups, and none as a leaf if it has no group.
pub of_node_nil :
    (a b : Option (List Problem)) (keys leaf : List Problem)
    → of_node (both_groups a b) keys leaf ≡ []
    → (or_else a [] ≡ []) × (or_else b [] ≡ []) × (a ≡ none → b ≡ none → leaf ≡ [])
of_node_nil none none keys leaf h = (refl, refl, λ i j. h)
of_node_nil none (some ys) keys leaf h = (refl, (of_append_nil ys keys h).0, λ i j. absurd (cc j))
of_node_nil (some xs) none keys leaf h = ((of_append_nil xs keys h).0, refl, λ i j. absurd (cc i))
of_node_nil (some xs) (some ys) keys leaf h =
    let (both, k) = of_append_nil (xs ++ ys) keys h in
    let (one, two) = of_append_nil xs ys both in (one, two, λ i j. absurd (cc i))

-- A text that is there and is not blank.
pub filled_text :
    (t : Texts) (o : Option Json) → is_filled t o ≡ true → (x : Ident) × (o ≡ some (Json.text x))
filled_text t none h = cc
filled_text t (some Json.null) h = cc
filled_text t (some (Json.bool b)) h = cc
filled_text t (some (Json.num n)) h = cc
filled_text t (some (Json.arr xs)) h = cc
filled_text t (some (Json.obj fs)) h = cc
filled_text t (some (Json.text x)) h = (x, refl)
