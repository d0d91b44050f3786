-- ===== src/Store/Contracts.antt =====
-- Reading a contract and changing its state (src/longtask/persistence/store.py,
-- `get_contract`, `update_contract_state` and what it calls).
pub mod Revision
pub mod Update
pub mod Invariant
pub mod Replay
use lhgp.Prelude.{
  ℕ, ◌+◌, Bool, true, false, not, Option, none, some, List, [], ◌∷◌, ◌++◌, ◌==◌, nat_eq, ◌&&◌, ◌||◌,
  option_beq, if◌then◌else◌, or_else, all, contains, ltb, is_some,
}
use lhgp.Prelude.Tables.{find, update_where}
use lhgp.Contracts.Axes.{ContractState, state_eq, DeadlineStatus, AcceptanceStatus, BlockReason}
use lhgp.Contracts.Machine.{is_valid_transition}
use lhgp.Contracts.Policies.{Ident, Instant, ContractDraft, NotifyKind}
use lhgp.Store.Requests.{owned_by, replayed_events}
use lhgp.Store.Outbox.{enqueue_notification}
use lhgp.Store.EventType.{EventType, event_eq}
use lhgp.Store.Types.{
  StoredEvent, ContractView, Snapshot, Notification, Store, Payload, Value, merge, Result, ok, err,
  store_error, revision_conflict, illegal_state_transition, idempotency_mismatch, integrity_error,
  Action,
}
use lhgp.Store.Events.{NewEvent, append_event, get_events_by_request_id, if_none}
use lhgp.Store.Quiet.{Platform, notify_eq, notification_kind, notification_available_at}
use lhgp.Store.Leases.{truthy, seen_by}

abbrev pub is_contract : Ident → ContractView → Bool
is_contract contract_id row = row.contract_id == contract_id

-- A row is read as it was written; rows that another program changed are not modelled.
unfoldable pub get_contract : Ident → Store → Option ContractView
get_contract contract_id s = find (is_contract contract_id) s.contracts

-- A transition that keeps the state is allowed.
unfoldable pub assert_legal_contract_transition : ContractState → ContractState → Result (Unit {0})
assert_legal_contract_transition current new_state =
    if current == new_state
    then ok tt
    else if not (is_valid_transition current new_state)
    then err illegal_state_transition
    else ok tt

-- The key of the table `contract_revisions`.
abbrev pub snapshot_at : Ident → ℕ → Snapshot → Bool
snapshot_at contract_id revision row = row.contract_id == contract_id && row.revision == revision

-- The key of `contract_revisions` is the contract and the revision: a revision is written once.
unfoldable pub write_revision_snapshot : Snapshot → Store → Result Store
write_revision_snapshot row s = elim (find (snapshot_at row.contract_id row.revision) s.snapshots) [
  | some _ ↦ err integrity_error
  | none ↦ ok (record s { snapshots = s.snapshots ++ row ∷ [] })
]

-- The keyword arguments of `update_contract_state`.
pub record StateChange : Type 0 where
  pub contract_id : Ident
  pub new_state : ContractState
  pub now : Instant
  pub expected_revision : Option ℕ
  pub blocked_reason : Option BlockReason
  pub next_wakeup_at : Option Instant
  pub deadline_status : Option DeadlineStatus
  pub acceptance_status : Option AcceptanceStatus
  pub next_decision_at : Option Instant
  pub event_type : Option EventType
  pub event_payload : Payload
  pub request_id : Option Ident
  pub actor : Ident
  pub schema_version : ℕ

-- The row that the caller has read, with the new values.
unfoldable pub changed : StateChange → ContractView → ContractView
changed c current = record current {
  revision = current.revision + 1;
  state = c.new_state;
  deadline_status = or_else c.deadline_status current.deadline_status;
  acceptance_status = or_else c.acceptance_status current.acceptance_status;
  blocked_reason = c.blocked_reason;
  updated_at = c.now;
  next_wakeup_at = if_none c.next_wakeup_at current.next_wakeup_at;
  next_decision_at = if_none c.next_decision_at current.next_decision_at;
}

-- The columns that the UPDATE sets, on a row of the table; it keeps the other columns.
abbrev pub set_columns : StateChange → ContractView → ContractView → ContractView
set_columns c current row = record row {
  revision = (changed c current).revision;
  state = (changed c current).state;
  deadline_status = (changed c current).deadline_status;
  acceptance_status = (changed c current).acceptance_status;
  blocked_reason = (changed c current).blocked_reason;
  updated_at = (changed c current).updated_at;
  next_wakeup_at = (changed c current).next_wakeup_at;
  next_decision_at = (changed c current).next_decision_at;
}

-- A plan approval of an earlier revision is carried over to the new one.
abbrev pub is_earlier : Option ℕ → ℕ → Bool
is_earlier none revision = false
is_earlier (some r) revision = ltb r revision

abbrev pub is_prior_approval : Ident → ℕ → StoredEvent → Bool
is_prior_approval contract_id revision e =
    owned_by contract_id e
    && (e.event_type == EventType.plan_approved && is_earlier e.contract_revision revision)

unfoldable pub restamp : Ident → ℕ → List StoredEvent → List StoredEvent
restamp contract_id revision =
    update_where (is_prior_approval contract_id revision)
      (λ e. record e { contract_revision = some revision })

-- `_STATE_TO_EVENT.get(new_state, CONTRACT_PATCHED)`: `satisfied` has no entry.
unfoldable pub state_to_event : ContractState → EventType
state_to_event ContractState.drafted = EventType.contract_prepared
state_to_event ContractState.active = EventType.contract_approved
state_to_event ContractState.paused = EventType.contract_paused
state_to_event ContractState.blocked = EventType.contract_blocked
state_to_event ContractState.complete = EventType.contract_completed
state_to_event ContractState.cancelled = EventType.contract_cancelled
state_to_event ContractState.expired = EventType.contract_expired
state_to_event ContractState.archived = EventType.contract_arbitrated
state_to_event ContractState.satisfied = EventType.contract_patched

abbrev pub snapshot_of : StateChange → ContractView → Snapshot
snapshot_of c current = record {
  contract_id = c.contract_id;
  revision = current.revision + 1;
  draft = current.draft;
  state = c.new_state;
  deadline_status = or_else c.deadline_status current.deadline_status;
  acceptance_status = or_else c.acceptance_status current.acceptance_status;
  blocked_reason = c.blocked_reason;
  recorded_at = c.now;
  recorded_by = c.actor;
  change_reason = elim c.event_type [
    | some kind ↦ Value.event kind
    | none ↦ Value.transition_to c.new_state
  ];
}

-- The source takes any text for the type of the event; here it is one of the types that it declares.
abbrev pub chosen_event : StateChange → EventType
chosen_event c = or_else c.event_type (state_to_event c.new_state)

abbrev reason_entry : Option BlockReason → Payload
reason_entry none = []
reason_entry (some reason) = ("blocked_reason", Value.reason reason) ∷ []

unfoldable pub state_payload : StateChange → ContractView → Payload
state_payload c current =
    merge
      (merge
        (("actor", Value.id c.actor)
          ∷ ("previous_state", Value.state current.state)
          ∷ ("new_state", Value.state c.new_state)
          ∷ ("revision", Value.num (current.revision + 1))
          ∷ ("deadline_status", Value.deadline (or_else c.deadline_status current.deadline_status))
          ∷ (
            "acceptance_status",
            Value.acceptance (or_else c.acceptance_status current.acceptance_status),
          )
          ∷ [])
        c.event_payload)
      (reason_entry c.blocked_reason)

unfoldable pub state_event : StateChange → ContractView → NewEvent
state_event c current = record {
  contract_id = some c.contract_id;
  event_type = chosen_event c;
  payload = state_payload c current;
  now = c.now;
  attempt_id = none;
  lease_generation = none;
  request_id = c.request_id;
  actor = c.actor;
  schema_version = c.schema_version;
  goal_id = some current.goal_id;
  contract_revision = some (current.revision + 1);
  role = some c.actor;
  payload_schema_version = some c.schema_version;
}

unfoldable pub notify :
    Platform → StateChange → ContractView → StoredEvent → Option NotifyKind → Store → Store
unfolding enqueue_notification
notify platform c current event none s = s
notify platform c current event (some kind) s =
    if contains kind current.draft.attention.notify_on
    then enqueue_notification
        (record {
          contract_id = c.contract_id;
          event_id = event.event_id;
          goal_id = current.goal_id;
          event_type = kind;
          payload =
              merge
                (("contract_id", Value.id c.contract_id)
                  ∷ ("event_id", Value.num event.event_id)
                  ∷ [])
                (state_payload c current);
          available_at = notification_available_at platform current.draft.attention kind c.now;
          now = c.now;
        })
        s
    else s

-- The row and the approvals are updated, the snapshot is written, the event is logged, and the user
-- is notified, in this order.
unfoldable pub write_change : Platform → StateChange → ContractView → Store → Result Store
write_change platform c current s =
    let s1 = record s {
      contracts = update_where (is_contract c.contract_id) (set_columns c current) s.contracts;
      events = restamp c.contract_id (current.revision + 1) s.events;
    } in
    elim (write_revision_snapshot (snapshot_of c current) s1) [
      | err e ↦ err e
      | ok s2 ↦
          let (event, s3) = append_event (state_event c current) s2 in
          ok (notify platform c current event (notification_kind (chosen_event c) c.new_state) s3)
    ]

abbrev pub revision_differs : Option ℕ → ℕ → Bool
revision_differs none revision = false
revision_differs (some expected) revision = not (revision == expected)

abbrev pub reread : Ident → Result Store → Result (ContractView × Store)
reread contract_id (err e) = err e
reread contract_id (ok s) = elim (get_contract contract_id s) [
  | none ↦ err store_error
  | some row ↦ ok (row, s)
]

-- A call that is no replay: the contract must be there, at the named revision if one is named, and
-- the transition must be legal.
unfoldable pub change_current : Platform → StateChange → Option ContractView → Action ContractView
change_current platform c none s = err store_error
change_current platform c (some current) s =
    if revision_differs c.expected_revision current.revision
    then err revision_conflict
    else elim (assert_legal_contract_transition current.state c.new_state) [
      | err e ↦ err e
      | ok _ ↦ reread c.contract_id (write_change platform c current s)
    ]

-- The contract that a replay answers with, if the key was seen and the contract is there.
abbrev pub replay_view : List StoredEvent → Option ContractView → Option ContractView
replay_view [] row = none
replay_view (e ∷ es) row = row

unfoldable pub update_contract_state : Platform → StateChange → Action ContractView
update_contract_state platform c s = elim (replayed_events c.request_id c.contract_id s) [
  | err e ↦ err e
  | ok existing ↦ elim (replay_view existing (get_contract c.contract_id s)) [
    | some row ↦ ok (row, s)
    | none ↦ change_current platform c (get_contract c.contract_id s) s
  ]
]
