-- ===== src/Admission/Eligible.antt =====
-- When an executor is eligible (src/lhgp/admission/eligibility.py).
use lhgp.Prelude.{
  ◌≡◌, refl, ◌↔◌, ◌⊎◌, inl, inr, Bool, true, false, none, some, List, [], ◌∷◌, ◌==◌, nat_eq, ◌&&◌,
  contains, if◌then◌else◌, arith, Option-cases, Bool-cases,
}
use lhgp.Prelude.Tables.{find}
use lhgp.Contracts.Policies.{Ident, Authority, AuthorityBinding}
use lhgp.Admission.{
  any_model, closed, verifier, is_listed, models_allow, roles_allow, binding_for_executor,
  CandidateFacts, eligible, has_executors, explicitly_allows, evaluate,
}

-- The facts that do not depend on the contract's authority.
abbrev pub is_able : CandidateFacts → Ident → Bool
is_able facts role =
    facts.executor_enabled_globally
    && (facts.capability_satisfied
        && (facts.constraint_enforcement_proven
            && (facts.budget_available
                && (facts.executor_concurrency_available
                    && (if role == verifier then facts.verifier_independent else true)))))

-- The first binding of the executor lists the role, and the model or "*"; or there is no binding at
-- all, for this executor or another one, and the policy is "closed".
abbrev pub IsAuthorized : Authority → Ident → Ident → Ident → Type 0
IsAuthorized authority executor_id model role =
    ((b : AuthorityBinding) × (binding_for_executor authority executor_id ≡ some b)
      × ((contains any_model b.models ≡ true) ⊎ (contains model b.models ≡ true))
      × (contains role b.roles ≡ true))
    ⊎ ((authority.executors ≡ []) × (authority.executor_policy ≡ closed))

listed_model : (xs : List Ident) (x : Ident) → contains x xs ≡ true → is_listed xs ≡ true
listed_model [] x h = cc
listed_model (y ∷ xs) x h = refl

no_executors : (bs : List AuthorityBinding) → has_executors bs ≡ false → bs ≡ []
no_executors [] h = refl
no_executors (b ∷ bs) h = cc

eligible_parts :
    (authority : Authority) (facts : CandidateFacts) (model role : Ident)
    → eligible (evaluate authority facts model role) ≡ (
        explicitly_allows authority (binding_for_executor authority facts.executor_id) model role
        && is_able facts role)
unfolding evaluate
eligible_parts authority facts model role = ground arith

allowed-IsAuthorized :
    (authority : Authority) (executor_id model role : Ident)
    → explicitly_allows authority (binding_for_executor authority executor_id) model role ≡ true
    → IsAuthorized authority executor_id model role
unfolding explicitly_allows models_allow roles_allow
allowed-IsAuthorized authority executor_id model role h =
    elim (Option-cases (binding_for_executor authority executor_id)) [
      | inl unbound ↦ inr (no_executors authority.executors (ground arith), ground arith)
      | inr (b, bound) ↦ inl (
        b,
        bound,
        elim (Bool-cases (contains any_model b.models)) [
          | inl every ↦ inl every
          | inr other ↦ inr (ground arith)
        ],
        ground arith,
      )
    ]

no_binding :
    (authority : Authority) (executor_id : Ident)
    → authority.executors ≡ []
    → binding_for_executor authority executor_id ≡ none
unfolding binding_for_executor find
no_binding authority executor_id empty = rw empty refl

IsAuthorized-allowed :
    (authority : Authority) (executor_id model role : Ident)
    → IsAuthorized authority executor_id model role
    → explicitly_allows authority (binding_for_executor authority executor_id) model role ≡ true
unfolding explicitly_allows models_allow roles_allow
IsAuthorized-allowed authority executor_id model role (inl (b, bound, inl every, in_role)) =
    rw (bound, explicitly_allows, listed_model b.models any_model every, every, in_role) refl
IsAuthorized-allowed authority executor_id model role (inl (b, bound, inr named, in_role)) =
    ground (arith, listed_model b.models model named)
IsAuthorized-allowed authority executor_id model role (inr (empty, policy)) =
    rw (no_binding authority executor_id empty, explicitly_allows, empty, policy) refl

-- An executor is eligible exactly when the facts about it hold, independence being asked of a verifier
-- alone, and the contract authorizes it: its first binding lists the role, and the model or "*", or
-- the contract lists no executor at all and its policy is "closed", which admits every executor in
-- every role and with every model.
pub eligible_iff :
    (authority : Authority) (facts : CandidateFacts) (model role : Ident)
    → (eligible (evaluate authority facts model role) ≡ true)
      ↔ ((is_able facts role ≡ true) × IsAuthorized authority facts.executor_id model role)
eligible_iff authority facts model role = (
  λ h.
      let parts = eligible_parts authority facts model role in
      (ground arith, allowed-IsAuthorized authority facts.executor_id model role (ground arith)),
  λ h. ground (
    arith,
    eligible_parts authority facts model role,
    IsAuthorized-allowed authority facts.executor_id model role h.1,
    h.0,
  ),
)
