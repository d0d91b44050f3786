-- ===== src/Store/Samples.antt =====
-- A store with one contract, for the tests.
use lhgp.Prelude.{ℕ, ◌+◌, ◌-◌, ◌*◌, ◌/◌, ◌%◌, true, false, Option, none, some, List, [], ◌∷◌}
use lhgp.Contracts.Axes.{ContractState, DeadlineStatus, AcceptanceStatus, AttemptState}
use lhgp.Contracts.Policies.{Json, Fields, NotifyKind, Attention, ContractDraft}
use lhgp.Store.Types.{ContractView, Snapshot, StoredAttempt, Store}
use lhgp.Store.Quiet.{Platform}
use lhgp.Store.Leases.{LeaseCall}
use lhgp.Store.Contracts.{StateChange}
use lhgp.Store.WriteBack.{WriteBack}

abbrev pub two_digits : List ℕ → Option ℕ
two_digits (a ∷ b ∷ []) = some ((a - b'0') * 10 + (b - b'0'))
two_digits _ = none

-- A platform with one zone, whose days begin at the multiples of a day.
abbrev pub utc : Platform
utc = record {
  local_time = λ zone now. some (now / 86400000000, now % 86400000000);
  instant_of = λ zone day time. day * 86400000000 + time;
  parse_int = two_digits;
  strip = λ text. text;
  json_equal = λ a b. true;
}

abbrev nothing : Json
nothing = Json.obj Fields.end

abbrev pub night_off : Attention
night_off = record {
  notify_on = NotifyKind.satisfied ∷ [];
  quiet_hours = none;
  bypass_quiet_hours_on = [];
}

abbrev pub draft : ContractDraft
draft = record {
  title = 31;
  objective = 32;
  deadline_at = 100000;
  hard_constraints = nothing;
  acceptance = record { standard = 33; checks = []; verifier = 34; spec = none; spec_hash = none };
  workload_initial_hours = 4;
  budget = record {
    max_dispatches = 3;
    max_escalations = 1;
    max_concurrent_attempts = 1;
    max_attempt_minutes = 60;
    max_output_bytes = 1000;
    verification_attempts_reserved = 2;
    max_cost = none;
  };
  authority = record {
    executor_policy = 35;
    executors = [];
    required_capabilities = [];
    allowed_controls = [];
    allow_parallel = false;
  };
  attention = night_off;
  continuity = record {
    checkpoint_max_age_minutes = 30;
    checkpoint_on_material_change = true;
    recovery_grace_minutes = 15;
    capsule_max_tokens = 4000;
  };
  auto_approve = record {
    enabled = false;
    actions = [];
    max_budget_increment = 0;
    max_spec_changes = 0;
  };
  soft_guidance = nothing;
  context = nothing;
  execution = nothing;
  client_meta = nothing;
}

abbrev pub contract : ContractView
contract = record {
  draft = draft;
  contract_id = 1;
  goal_id = 2;
  revision = 1;
  state = ContractState.active;
  deadline_status = DeadlineStatus.not_due;
  acceptance_status = AcceptanceStatus.pending;
  created_at = 5;
  updated_at = 5;
  next_wakeup_at = none;
  next_decision_at = none;
  blocked_reason = none;
}

abbrev pub snapshot : Snapshot
snapshot = record {
  contract_id = 1;
  revision = 1;
  draft = draft;
  state = ContractState.active;
  deadline_status = DeadlineStatus.not_due;
  acceptance_status = AcceptanceStatus.pending;
  blocked_reason = none;
  recorded_at = 5;
  recorded_by = 3;
  change_reason = lhgp.Store.Types.Value.null;
}

abbrev pub attempt : StoredAttempt
attempt = record {
  attempt_id = 11;
  goal_id = 2;
  contract_id = some 1;
  contract_revision = 1;
  role = 41;
  executor_id = some 7;
  model_id = none;
  state = AttemptState.running;
  lease_generation = some 1;
  admitted_at = 5;
  started_at = some 6;
  terminal_at = none;
  return_code = none;
  error_class = none;
  payload = nothing;
  external_run_id = none;
  session_locator = none;
  recovery_strategy = none;
  process_identity = nothing;
  capability_snapshot = nothing;
  handle_registered_at = none;
  orphaned_at = none;
  usage = nothing;
  updated_at = 6;
}

abbrev pub store : Store
store = record {
  goals = [];
  contracts = contract ∷ [];
  snapshots = snapshot ∷ [];
  events = [];
  next_event_id = 1;
  leases = [];
  attempts = attempt ∷ [];
  outbox = [];
  next_notification_id = 1;
}

abbrev pub call : LeaseCall
call = record {
  contract_id = 1;
  partition_id = none;
  at = 10;
  timeout = 5;
  request_id = some 900;
  actor = 3;
  payload = [];
  schema_version = 1;
  role = none;
  contract_revision = none;
}

abbrev pub other_call : LeaseCall
other_call = record call { at = 20; request_id = some 901 }

abbrev pub completion : StateChange
completion = record {
  contract_id = 1;
  new_state = ContractState.complete;
  now = 30;
  expected_revision = some 1;
  blocked_reason = none;
  next_wakeup_at = none;
  deadline_status = none;
  acceptance_status = none;
  next_decision_at = none;
  event_type = none;
  event_payload = [];
  request_id = some 902;
  actor = 3;
  schema_version = 1;
}

-- The first attempt's report; it carries the first generation.
abbrev pub report : WriteBack
report = record {
  contract_id = 1;
  attempt_id = 11;
  write_generation = 1;
  now = 40;
  partition_id = none;
  events = [];
  contract_state = some ContractState.complete;
  expected_revision = none;
  blocked_reason = none;
  next_wakeup_at = none;
  request_id = some 903;
  fence_checker = none;
  actor = 3;
  schema_version = 1;
  role = none;
  contract_revision = none;
  goal_id = none;
  model_id = some 51;
  usage = none;
}
