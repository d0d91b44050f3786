-- ===== src/Store/WriteBack.antt =====
-- Writing back what an attempt did (src/longtask/persistence/store.py, `write_back`).
pub mod Fence
pub mod Replay
use lhgp.Prelude.{
  ℕ, ◌+◌, Bool, true, false, not, Option, none, some, List, [], ◌∷◌, ◌++◌, ◌==◌, nat_eq, map, all,
  if◌then◌else◌, or_else,
}
use lhgp.Prelude.Tables.{update_where}
use lhgp.Contracts.Axes.{ContractState, BlockReason}
use lhgp.Contracts.Policies.{Ident, Instant, Json}
use lhgp.Store.Requests.{replayed_events}
use lhgp.Store.EventType.{EventType}
use lhgp.Store.Types.{
  StoredEvent, StoredLease, StoredAttempt, ContractView, Store, Payload, Value, Result, ok, err,
  lease_fenced, Action,
}
use lhgp.Store.Events.{NewEvent, append_event}
use lhgp.Store.Quiet.{Platform}
use lhgp.Store.Attempts.{is_attempt}
use lhgp.Store.Leases.{truthy, or_text, get_lease}
use lhgp.Store.Contracts.{StateChange, get_contract, update_contract_state}

pub record EventInput : Type 0 where
  pub event_type : EventType
  pub payload : Payload
  pub attempt_id : Option Ident
  pub lease_generation : Option ℕ
  pub request_id : Option Ident
  pub actor : Option Ident
  pub contract_revision : Option ℕ
  pub role : Option Ident
  pub payload_schema_version : Option ℕ
  pub goal_id : Option Ident

pub record WriteBackResult : Type 0 where
  pub contract_id : Ident
  pub attempt_id : Ident
  pub lease_generation : ℕ
  pub event_ids : List ℕ
  pub revision : Option ℕ

-- The keyword arguments of `write_back`; `usage` is none for an empty mapping too.
pub record WriteBack : Type 0 where
  pub contract_id : Ident
  pub attempt_id : Ident
  pub write_generation : ℕ
  pub now : Instant
  pub partition_id : Option Ident
  pub events : List EventInput
  pub contract_state : Option ContractState
  pub expected_revision : Option ℕ
  pub blocked_reason : Option BlockReason
  pub next_wakeup_at : Option Instant
  pub request_id : Option Ident
  pub fence_checker : Option (StoredLease → ℕ → Ident → Result (Unit {0}))
  pub actor : Ident
  pub schema_version : ℕ
  pub role : Option Ident
  pub contract_revision : Option ℕ
  pub goal_id : Option Ident
  pub model_id : Option Ident
  pub usage : Option Json

-- The fence of a call that brings no checker of its own.
unfoldable pub default_fence : StoredLease → ℕ → Ident → Result (Unit {0})
default_fence lease write_generation attempt_id =
    if not (write_generation == lease.generation)
    then err lease_fenced
    else if not (attempt_id == lease.holder_attempt_id)
    then err lease_fenced
    else ok tt

unfoldable pub check_fence : WriteBack → StoredLease → Result (Unit {0})
unfolding default_fence
check_fence w lease = or_else w.fence_checker default_fence lease w.write_generation w.attempt_id

abbrev pub stripped : Platform → Option Ident → Option Ident
stripped platform none = none
stripped platform (some m) = truthy (some (platform.strip m))

abbrev pub set_model : Option Ident → WriteBack → List StoredAttempt → List StoredAttempt
set_model none w rows = rows
set_model (some m) w rows =
    update_where (is_attempt w.attempt_id)
      (λ row. record row { model_id = some m; updated_at = w.now }) rows

abbrev pub set_usage : Option Json → WriteBack → List StoredAttempt → List StoredAttempt
set_usage none w rows = rows
set_usage (some u) w rows =
    update_where (is_attempt w.attempt_id) (λ row. record row { usage = u; updated_at = w.now })
      rows

-- The model and the usage that the executor reports, on the attempt's row.
unfoldable pub record_report : Platform → WriteBack → Store → Store
record_report platform w s = record s {
  attempts = set_usage w.usage w (set_model (stripped platform (truthy w.model_id)) w s.attempts);
}

abbrev pub change_of : WriteBack → ContractState → StateChange
change_of w state = record {
  contract_id = w.contract_id;
  new_state = state;
  now = w.now;
  expected_revision = w.expected_revision;
  blocked_reason = w.blocked_reason;
  next_wakeup_at = w.next_wakeup_at;
  deadline_status = none;
  acceptance_status = none;
  next_decision_at = none;
  event_type = none;
  event_payload = [];
  request_id = none;
  actor = w.actor;
  schema_version = w.schema_version;
}

-- The revision is none where the call changes no state.
abbrev pub change_state : Platform → WriteBack → Option ContractState → Action (Option ℕ)
change_state platform w none s = ok (none, s)
change_state platform w (some state) s =
    elim (update_contract_state platform (change_of w state) s) [
      | err e ↦ err e
      | ok r ↦ ok (some (r.0).revision, r.1)
    ]

-- `a or b` where both may be absent.
abbrev pub or_other : Option Ident → Option Ident → Option Ident
or_other a b = elim (truthy a) [ some x ↦ some x | none ↦ b ]

unfoldable pub input_event : WriteBack → EventInput → NewEvent
input_event w i = record {
  contract_id = some w.contract_id;
  event_type = i.event_type;
  payload = i.payload;
  now = w.now;
  attempt_id = some (or_text i.attempt_id w.attempt_id);
  lease_generation = some (or_text i.lease_generation w.write_generation);
  request_id = or_other i.request_id w.request_id;
  actor = or_text i.actor w.actor;
  schema_version = w.schema_version;
  goal_id = some (or_text i.goal_id (or_text w.goal_id w.contract_id));
  contract_revision = or_other i.contract_revision w.contract_revision;
  role = some (or_text i.role (or_text w.role w.actor));
  payload_schema_version = some (or_text i.payload_schema_version w.schema_version);
}

-- The loop over the events, with the ids in the order in which they were given.
unfoldable pub append_inputs : WriteBack → List EventInput → Store → List ℕ × Store
append_inputs w [] s = ([], s)
append_inputs w (i ∷ is) s =
    let (row, s') = append_event (input_event w i) s in
    let (ids, t) = append_inputs w is s' in (row.event_id ∷ ids, t)

abbrev pub state_or_null : Option ContractState → Value
state_or_null none = Value.null
state_or_null (some state) = Value.state state

unfoldable pub bookkeeping_event : WriteBack → NewEvent
bookkeeping_event w = record {
  contract_id = some w.contract_id;
  event_type = EventType.attempt_write_back;
  payload =
      ("attempt_id", Value.id w.attempt_id)
      ∷ ("write_generation", Value.num w.write_generation)
      ∷ ("contract_state", state_or_null w.contract_state)
      ∷ ("bookkeeping", Value.flag true)
      ∷ [];
  now = w.now;
  attempt_id = some w.attempt_id;
  lease_generation = some w.write_generation;
  request_id = w.request_id;
  actor = w.actor;
  schema_version = w.schema_version;
  goal_id = some (or_text w.goal_id w.contract_id);
  contract_revision = w.contract_revision;
  role = some (or_text w.role w.actor);
  payload_schema_version = some w.schema_version;
}

-- A call with a request id and no events still leaves an event by which its repetition is known.
abbrev pub anchored : WriteBack → Option Ident → List ℕ × Store → List ℕ × Store
anchored w none r = r
anchored w (some key) (i ∷ is, s) = (i ∷ is, s)
anchored w (some key) ([], s) =
    let (row, t) = append_event (bookkeeping_event w) s in (row.event_id ∷ [], t)

unfoldable pub log_events : WriteBack → Store → List ℕ × Store
unfolding append_inputs
log_events w s = anchored w (truthy w.request_id) (append_inputs w w.events s)

abbrev pub result_of : WriteBack → List ℕ → Option ℕ → WriteBackResult
result_of w ids revision = record {
  contract_id = w.contract_id;
  attempt_id = w.attempt_id;
  lease_generation = w.write_generation;
  event_ids = ids;
  revision = revision;
}

abbrev pub revision_of : Option ContractView → Option ℕ
revision_of none = none
revision_of (some row) = some row.revision

-- A call that is no replay.
abbrev pub write_fresh : Platform → WriteBack → Option StoredLease → Action WriteBackResult
write_fresh platform w none s = err lease_fenced
write_fresh platform w (some lease) s = elim (check_fence w lease) [
  | err e ↦ err e
  | ok _ ↦ elim (change_state platform w w.contract_state (record_report platform w s)) [
    | err e ↦ err e
    | ok r ↦ let logged = log_events w r.1 in ok (result_of w logged.0 r.0, logged.1)
  ]
]

abbrev pub write_replay : Platform → WriteBack → List StoredEvent → Action WriteBackResult
write_replay platform w [] s = write_fresh platform w (get_lease w.contract_id w.partition_id s) s
write_replay platform w (e ∷ es) s = ok (
  result_of w (map StoredEvent.event_id (e ∷ es)) (revision_of (get_contract w.contract_id s)),
  s,
)

unfoldable pub write_back : Platform → WriteBack → Action WriteBackResult
write_back platform w s = elim (replayed_events w.request_id w.contract_id s) [
  | err e ↦ err e
  | ok existing ↦ write_replay platform w existing s
]
