-- ===== src/Contracts/Exchange.antt =====
-- Policy values as JSON (src/lhgp/contracts/continuity.py, authority.py, auto_approve.py: `to_dict` and
-- `from_dict`).
pub mod Keys
pub mod RoundTrip
use mathlib.Core.Option
use lhgp.Prelude.{
  ℕ, zero, suc, Bool, true, false, Option, none, some, List, [], ◌∷◌, ◌==◌, nat_eq, if◌then◌else◌,
  or_else, is_some, map,
}
use lhgp.Contracts.Policies.{
  Ident, Json, Items, Fields, Continuity, AuthorityBinding, Authority, AutoApprove,
}
use lhgp.Contracts.Dicts.{get, as_true}
use lhgp.Contracts.Exchange.Keys.{
  checkpoint_max_age_minutes_key, checkpoint_on_material_change_key, recovery_grace_minutes_key,
  capsule_max_tokens_key, executor_policy_key, executors_key, required_capabilities_key,
  allowed_controls_key, allow_parallel_key, executor_id_key, models_key, roles_key, enabled_key,
  actions_key, max_budget_increment_key, max_spec_changes_key, closed_policy,
}

-- What Python makes of values that are not of the expected kind: the text by `str`, the number by
-- `int`, which may raise, and the items by iteration, which may raise.
pub record Values : Type 0 where
  pub shown : Json → Ident
  pub whole : Json → Option ℕ
  pub iterated : Json → Option (List Json)

-- A step that may fail, for `do` blocks.
infixl 5 ◌>>=◌
abbrev pub ◌>>=◌ {ℓ κ} : {A : Type ℓ} {B : Type κ} → Option A → (A → Option B) → Option B
none >>= f = none
some a >>= f = f a

abbrev pub text_of : Values → Json → Ident
text_of v (Json.text x) = x
text_of v j = v.shown j

abbrev pub list_of : Items → List Json
list_of Items.nil = []
list_of (Items.cons x xs) = x ∷ list_of xs

abbrev pub items_of : List Json → Items
items_of [] = Items.nil
items_of (x ∷ xs) = Items.cons x (items_of xs)

abbrev pub iterate : Values → Json → Option (List Json)
iterate v (Json.arr xs) = some (list_of xs)
iterate v j = v.iterated j

-- `value or ()`, iterated.
abbrev pub iterate_or_none : Values → Option Json → Option (List Json)
iterate_or_none v none = some []
iterate_or_none v (some j) = iterate v j

abbrev pub texts_json : List Ident → Json
texts_json xs = Json.arr (items_of (map Json.text xs))

-- `tuple(str(x) for x in data.get(key) or ())`
abbrev pub texts_at : Values → Ident → Fields → Option (List Ident)
texts_at v key fs = Option.map (map (text_of v)) (iterate_or_none v (as_true (get key fs)))

-- Python's `int`, where a truth value or a float is refused: there are no floats here.
abbrev pub strict_int : Values → Json → Option ℕ
strict_int v (Json.bool b) = none
strict_int v (Json.num n) = some n
strict_int v j = v.whole j

abbrev pub strict_bool : Json → Option Bool
strict_bool (Json.bool b) = some b
strict_bool j = none

unfoldable pub continuity_to_dict : Continuity → Fields
continuity_to_dict c =
    Fields.field checkpoint_max_age_minutes_key (Json.num c.checkpoint_max_age_minutes) (
      Fields.field checkpoint_on_material_change_key (Json.bool c.checkpoint_on_material_change) (
        Fields.field recovery_grace_minutes_key (Json.num c.recovery_grace_minutes)
          (Fields.field capsule_max_tokens_key (Json.num c.capsule_max_tokens) Fields.end)))

abbrev pub default_continuity : Continuity
default_continuity = record {
  checkpoint_max_age_minutes = 20;
  checkpoint_on_material_change = true;
  recovery_grace_minutes = 5;
  capsule_max_tokens = 12000;
}

-- Where a value is refused, the call raises.
unfoldable pub continuity_from_dict : Values → Fields → Option Continuity
continuity_from_dict v Fields.end = some default_continuity
continuity_from_dict v (Fields.field k j fs) = do
  let given = Fields.field k j fs
  age ← strict_int v (or_else (get checkpoint_max_age_minutes_key given) (Json.num 20))
  on_change ← strict_bool (or_else (get checkpoint_on_material_change_key given) (Json.bool true))
  grace ← strict_int v (or_else (get recovery_grace_minutes_key given) (Json.num 5))
  tokens ← strict_int v (or_else (get capsule_max_tokens_key given) (Json.num 12000))
  some (record {
    checkpoint_max_age_minutes = age;
    checkpoint_on_material_change = on_change;
    recovery_grace_minutes = grace;
    capsule_max_tokens = tokens;
  })

abbrev pub binding_to_dict : AuthorityBinding → Fields
binding_to_dict b = Fields.field executor_id_key (Json.text b.executor_id) (
    Fields.field models_key (texts_json b.models)
      (Fields.field roles_key (texts_json b.roles) Fields.end))

unfoldable pub authority_to_dict : Authority → Fields
authority_to_dict a = Fields.field executor_policy_key (Json.text a.executor_policy) (
    Fields.field executors_key
      (Json.arr (items_of (map (λ b. Json.obj (binding_to_dict b)) a.executors)))
      (Fields.field required_capabilities_key (texts_json a.required_capabilities) (
        Fields.field allowed_controls_key (texts_json a.allowed_controls)
          (Fields.field allow_parallel_key (Json.bool a.allow_parallel) Fields.end))))

-- An executor without an id is refused.
abbrev pub binding_from_dict : Values → Fields → Option AuthorityBinding
binding_from_dict v fs = do
  id ← get executor_id_key fs
  models ← texts_at v models_key fs
  roles ← texts_at v roles_key fs
  some (record { executor_id = text_of v id; models = models; roles = roles })

-- Items that are no dictionaries are passed over.
unfoldable pub bindings_from_dict : Values → List Json → Option (List AuthorityBinding)
bindings_from_dict v [] = some []
bindings_from_dict v (Json.obj fs ∷ xs) = do
  b ← binding_from_dict v fs
  bs ← bindings_from_dict v xs
  some (b ∷ bs)
bindings_from_dict v (x ∷ xs) = bindings_from_dict v xs

abbrev pub policy_of : Values → Option Json → Ident
policy_of v none = closed_policy
policy_of v (some j) = text_of v j

unfoldable pub authority_from_dict : Values → Fields → Option Authority
unfolding bindings_from_dict
authority_from_dict v Fields.end = some (record {
  executor_policy = closed_policy;
  executors = [];
  required_capabilities = [];
  allowed_controls = [];
  allow_parallel = false;
})
authority_from_dict v (Fields.field k j fs) = do
  let given = Fields.field k j fs
  raw ← iterate_or_none v (as_true (get executors_key given))
  bindings ← bindings_from_dict v raw
  capabilities ← texts_at v required_capabilities_key given
  controls ← texts_at v allowed_controls_key given
  parallel ← strict_bool (or_else (get allow_parallel_key given) (Json.bool false))
  some (record {
    executor_policy = policy_of v (as_true (get executor_policy_key given));
    executors = bindings;
    required_capabilities = capabilities;
    allowed_controls = controls;
    allow_parallel = parallel;
  })

unfoldable pub auto_approve_to_dict : AutoApprove → Fields
auto_approve_to_dict a = Fields.field enabled_key (Json.bool a.enabled) (
    Fields.field actions_key (texts_json a.actions) (
      Fields.field max_budget_increment_key (Json.num a.max_budget_increment)
        (Fields.field max_spec_changes_key (Json.num a.max_spec_changes) Fields.end)))

-- Anything but a list is refused, unless Python takes it for false.
abbrev pub actions_of : Values → Option Json → Option (List Ident)
actions_of v none = some []
actions_of v (some (Json.arr xs)) = some (map (text_of v) (list_of xs))
actions_of v (some j) = none

-- `int(value or 0)`
abbrev pub int_or_zero : Values → Option Json → Option ℕ
int_or_zero v none = some 0
int_or_zero v (some (Json.num n)) = some n
int_or_zero v (some (Json.bool b)) = some 1
int_or_zero v (some j) = v.whole j

unfoldable pub auto_approve_from_dict : Values → Fields → Option AutoApprove
auto_approve_from_dict v Fields.end =
    some (record { enabled = false; actions = []; max_budget_increment = 0; max_spec_changes = 0 })
auto_approve_from_dict v (Fields.field k j fs) = do
  let given = Fields.field k j fs
  actions ← actions_of v (as_true (get actions_key given))
  budget ← int_or_zero v (as_true (get max_budget_increment_key given))
  changes ← int_or_zero v (as_true (get max_spec_changes_key given))
  some (record {
    enabled = is_some (as_true (get enabled_key given));
    actions = actions;
    max_budget_increment = budget;
    max_spec_changes = changes;
  })
