-- ===== src/Store/Events.antt =====
-- The event log (src/lhgp/persistence/events_query.py).
use lhgp.Prelude.{
  ℕ, ◌+◌, Bool, Option, none, some, List, [], ◌∷◌, ◌++◌, nat_eq, option_beq, filter, or_else,
}
use lhgp.Contracts.Policies.{Ident, Instant}
use lhgp.Store.EventType.{EventType}
use lhgp.Store.Types.{StoredEvent, Store, Payload}

-- The keyword arguments of `append_event`.
pub record NewEvent : Type 0 where
  pub contract_id : Option Ident
  pub event_type : EventType
  pub payload : Payload
  pub now : Instant
  pub attempt_id : Option Ident
  pub lease_generation : Option ℕ
  pub request_id : Option Ident
  pub actor : Ident
  pub schema_version : ℕ
  pub goal_id : Option Ident
  pub contract_revision : Option ℕ
  pub role : Option Ident
  pub payload_schema_version : Option ℕ

-- `x if x is not None else y`
abbrev pub if_none {ℓ} : {A : Type ℓ} → Option A → Option A → Option A
if_none none y = y
if_none (some x) y = some x

unfoldable pub stored_event : NewEvent → ℕ → StoredEvent
stored_event e event_id = record {
  event_id = event_id;
  contract_id = e.contract_id;
  goal_id = if_none e.goal_id e.contract_id;
  attempt_id = e.attempt_id;
  lease_generation = e.lease_generation;
  contract_revision = e.contract_revision;
  role = e.role;
  event_type = e.event_type;
  payload = e.payload;
  payload_schema_version = or_else e.payload_schema_version e.schema_version;
  request_id = e.request_id;
  created_at = e.now;
  actor = e.actor;
  schema_version = e.schema_version;
}

-- `event_id` is AUTOINCREMENT: an id is never given twice.
unfoldable pub append_event : NewEvent → Store → StoredEvent × Store
unfolding stored_event
append_event e s =
    let row = stored_event e s.next_event_id in
    (row, record s { events = s.events ++ row ∷ []; next_event_id = s.next_event_id + 1 })

abbrev pub asked_by : Ident → StoredEvent → Bool
asked_by request_id e = option_beq e.request_id (some request_id)

-- The search is by `request_id` alone, over the events of every contract.
unfoldable pub get_events_by_request_id : Ident → Store → List StoredEvent
get_events_by_request_id request_id s = filter (asked_by request_id) s.events
