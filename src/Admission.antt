-- ===== src/Admission.antt =====
-- Which executors a contract admits (src/lhgp/admission/eligibility.py, src/lhgp/contracts/authority.py).
pub mod Eligible
mod Tests
use lhgp.Prelude.{
  Bool, true, false, Option, none, some, List, [], ◌∷◌, ◌==◌, nat_eq, ◌&&◌, ◌||◌, not, contains,
  all, if◌then◌else◌, map, filter,
}
use lhgp.Prelude.Tables.{find}
use lhgp.Contracts.Policies.{Ident, Authority, AuthorityBinding}

-- The texts "*", "closed" and "verifier".
abbrev pub any_model : Ident
any_model = 2

abbrev pub closed : Ident
closed = 3

abbrev pub verifier : Ident
verifier = 4

abbrev pub is_listed : List Ident → Bool
is_listed [] = false
is_listed (x ∷ xs) = true

unfoldable pub models_allow : AuthorityBinding → Ident → Bool
models_allow binding model =
    is_listed binding.models && (contains any_model binding.models || contains model binding.models)

unfoldable pub roles_allow : AuthorityBinding → Ident → Bool
roles_allow binding role = contains role binding.roles

abbrev pub binds : Ident → AuthorityBinding → Bool
binds executor_id binding = binding.executor_id == executor_id

unfoldable pub binding_for_executor : Authority → Ident → Option AuthorityBinding
binding_for_executor authority executor_id = find (binds executor_id) authority.executors

pub record CandidateFacts : Type 0 where
  pub executor_id : Ident
  pub executor_enabled_globally : Bool
  pub executor_concurrency_available : Bool
  pub capability_satisfied : Bool
  pub constraint_enforcement_proven : Bool
  pub budget_available : Bool
  pub verifier_independent : Bool

pub data Condition : Type 0 where
  globally_enabled contract_explicitly_allows capability_satisfies constraint_enforcement_proven
        budget_available concurrency_available verifier_independence_satisfies :
      Condition

pub record EligibilityVerdict : Type 0 where
  pub candidate_executor_id : Ident
  pub requested_model : Ident
  pub requested_role : Ident
  pub conditions : List (Condition × Bool)

abbrev pub eligible : EligibilityVerdict → Bool
eligible v = all (λ c. c.1) v.conditions

abbrev pub failed : EligibilityVerdict → List Condition
failed v = map (λ c. c.0) (filter (λ c. not c.1) v.conditions)

abbrev pub has_executors : List AuthorityBinding → Bool
has_executors [] = false
has_executors (b ∷ bs) = true

unfoldable pub explicitly_allows : Authority → Option AuthorityBinding → Ident → Ident → Bool
explicitly_allows authority none model role =
    authority.executor_policy == closed && not (has_executors authority.executors)
explicitly_allows authority (some binding) model role =
    models_allow binding model && roles_allow binding role

unfoldable pub evaluate : Authority → CandidateFacts → Ident → Ident → EligibilityVerdict
evaluate authority facts model role = record {
  candidate_executor_id = facts.executor_id;
  requested_model = model;
  requested_role = role;
  conditions =
      (Condition.globally_enabled, facts.executor_enabled_globally)
      ∷ (
        Condition.contract_explicitly_allows,
        explicitly_allows authority (binding_for_executor authority facts.executor_id) model role,
      )
      ∷ (Condition.capability_satisfies, facts.capability_satisfied)
      ∷ (Condition.constraint_enforcement_proven, facts.constraint_enforcement_proven)
      ∷ (Condition.budget_available, facts.budget_available)
      ∷ (Condition.concurrency_available, facts.executor_concurrency_available)
      ∷ (
        Condition.verifier_independence_satisfies,
        if role == verifier then facts.verifier_independent else true,
      )
      ∷ [];
}
