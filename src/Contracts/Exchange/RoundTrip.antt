-- ===== src/Contracts/Exchange/RoundTrip.antt =====
-- A policy value that is written as JSON is read back (src/lhgp/contracts/continuity.py, authority.py,
-- auto_approve.py).
use mathlib.Core.Option
use lhgp.Prelude.{
  ◌≡◌, refl, Bool, true, false, some, List, [], ◌∷◌, ◌==◌, nat_eq, map, arith, inl, inr, Bool-cases,
  is_some, ℕ,
}
use lhgp.Contracts.Policies.{
  Ident, Json, Continuity, AuthorityBinding, Authority, AutoApprove, ContractDraft,
}
use lhgp.Contracts.Dicts.{get, as_true}
use lhgp.Contracts.Exchange.{
  Values, text_of, list_of, items_of, iterate_or_none, texts_json, binding_to_dict,
  binding_from_dict, bindings_from_dict, continuity_to_dict, continuity_from_dict,
  authority_to_dict, authority_from_dict, policy_of, auto_approve_to_dict, auto_approve_from_dict,
  actions_of, int_or_zero,
}

list_of-items_of : (xs : List Json) → list_of (items_of xs) ≡ xs
list_of-items_of [] = refl
list_of-items_of (x ∷ xs) = rw (list_of-items_of xs) refl

texts_back : (v : Values) (xs : List Ident) → map (text_of v) (map Json.text xs) ≡ xs
texts_back v [] = refl
texts_back v (x ∷ xs) = rw (texts_back v xs) refl

-- A list of texts is read back, an empty one too, which Python takes for false.
texts_read :
    (v : Values) (xs : List Ident)
    → Option.map (map (text_of v)) (iterate_or_none v (as_true (some (texts_json xs)))) ≡ some xs
texts_read v [] = refl
texts_read v (x ∷ xs) = rw (list_of-items_of (map Json.text xs), texts_back v xs) refl

binding_back :
    (v : Values) (b : AuthorityBinding) → binding_from_dict v (binding_to_dict b) ≡ some b
unfolding get
binding_back v b = rw (texts_read v b.models, texts_read v b.roles) refl

bindings_back :
    (v : Values) (bs : List AuthorityBinding)
    → bindings_from_dict v (map (λ b. Json.obj (binding_to_dict b)) bs) ≡ some bs
unfolding bindings_from_dict
bindings_back v [] = refl
bindings_back v (b ∷ bs) = rw (binding_back v b, bindings_back v bs) refl

-- A list of dictionaries is iterated, an empty one too.
dictionaries_read :
    (v : Values) (xs : List Json)
    → iterate_or_none v (as_true (some (Json.arr (items_of xs)))) ≡ some xs
dictionaries_read v [] = refl
dictionaries_read v (x ∷ xs) = rw (list_of-items_of xs) refl

policy_read :
    (v : Values) (x : Ident) → (x == 0) ≡ false → policy_of v (as_true (some (Json.text x))) ≡ x
policy_read v x h = rw h refl

continuity_back :
    (v : Values) (c : Continuity) → continuity_from_dict v (continuity_to_dict c) ≡ some c
unfolding get continuity_to_dict continuity_from_dict
continuity_back v c = refl

authority_back :
    (v : Values) (a : Authority)
    → (a.executor_policy == 0) ≡ false
    → authority_from_dict v (authority_to_dict a) ≡ some a
unfolding get authority_to_dict authority_from_dict
authority_back v a named =
    rw
      (
        dictionaries_read v (map (λ b. Json.obj (binding_to_dict b)) a.executors),
        bindings_back v a.executors,
        texts_read v a.required_capabilities,
        texts_read v a.allowed_controls,
        policy_read v a.executor_policy named,
      )
      refl

bool_read : (b : Bool) → is_some (as_true (some (Json.bool b))) ≡ b
bool_read true = refl
bool_read false = refl

number_read : (v : Values) (n : ℕ) → int_or_zero v (as_true (some (Json.num n))) ≡ some n
number_read v n = elim (Bool-cases (n == 0)) [
  | inl zero_is ↦ let e : n ≡ 0 = ground arith in rw e refl
  | inr other ↦ rw other refl
]

actions_read :
    (v : Values) (xs : List Ident) → actions_of v (as_true (some (texts_json xs))) ≡ some xs
actions_read v [] = refl
actions_read v (x ∷ xs) = rw (list_of-items_of (map Json.text xs), texts_back v xs) refl

auto_approve_back :
    (v : Values) (a : AutoApprove) → auto_approve_from_dict v (auto_approve_to_dict a) ≡ some a
unfolding get auto_approve_to_dict auto_approve_from_dict
auto_approve_back v a =
    rw
      (
        actions_read v a.actions,
        number_read v a.max_budget_increment,
        number_read v a.max_spec_changes,
        bool_read a.enabled,
      )
      refl

-- The continuity, the authority and the pre-approval of a draft whose executor policy is not the empty
-- text are read back from the dictionaries that they are written to as they were, whatever Python
-- makes of values of other kinds.
pub draft_policies_back :
    (v : Values) (d : ContractDraft)
    → (d.authority.executor_policy == 0) ≡ false
    → (continuity_from_dict v (continuity_to_dict d.continuity) ≡ some d.continuity)
      × (authority_from_dict v (authority_to_dict d.authority) ≡ some d.authority)
      × (auto_approve_from_dict v (auto_approve_to_dict d.auto_approve) ≡ some d.auto_approve)
draft_policies_back v d named = (
  continuity_back v d.continuity,
  authority_back v d.authority named,
  auto_approve_back v d.auto_approve,
)
