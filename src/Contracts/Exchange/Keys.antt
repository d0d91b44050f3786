-- ===== src/Contracts/Exchange/Keys.antt =====
-- The keys of the policy values (src/lhgp/contracts/continuity.py, authority.py, auto_approve.py).
use lhgp.Contracts.Policies.{Ident}

abbrev pub checkpoint_max_age_minutes_key : Ident
checkpoint_max_age_minutes_key = 100

abbrev pub checkpoint_on_material_change_key : Ident
checkpoint_on_material_change_key = 101

abbrev pub recovery_grace_minutes_key : Ident
recovery_grace_minutes_key = 102

abbrev pub capsule_max_tokens_key : Ident
capsule_max_tokens_key = 103

abbrev pub executor_policy_key : Ident
executor_policy_key = 104

abbrev pub executors_key : Ident
executors_key = 105

abbrev pub required_capabilities_key : Ident
required_capabilities_key = 106

abbrev pub allowed_controls_key : Ident
allowed_controls_key = 107

abbrev pub allow_parallel_key : Ident
allow_parallel_key = 108

abbrev pub executor_id_key : Ident
executor_id_key = 109

abbrev pub models_key : Ident
models_key = 110

abbrev pub roles_key : Ident
roles_key = 111

abbrev pub enabled_key : Ident
enabled_key = 112

abbrev pub actions_key : Ident
actions_key = 113

abbrev pub max_budget_increment_key : Ident
max_budget_increment_key = 114

abbrev pub max_spec_changes_key : Ident
max_spec_changes_key = 115

-- The policy "closed".
abbrev pub closed_policy : Ident
closed_policy = 3
