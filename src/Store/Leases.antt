-- ===== src/Store/Leases.antt =====
-- Leases with compare-and-swap and fencing (src/longtask/persistence/leases.py).
pub mod Rows
pub mod Cas
pub mod Replay
pub mod Fencing
use lhgp.Prelude.{
  ℕ, ◌+◌, Bool, Option, none, some, List, [], ◌∷◌, ◌==◌, nat_eq, ◌&&◌, if◌then◌else◌, or_else,
}
use lhgp.Prelude.Tables.{find, update_where, delete_where, upsert}
use lhgp.Contracts.Policies.{Ident, Instant, Span}
use lhgp.Store.EventType.{EventType}
use lhgp.Store.Types.{
  StoredLease, StoredEvent, ContractView, Store, Payload, Value, id_or_null, merge, Result, ok, err,
  Error, lease_cas, lease_fenced, integrity_error, Action,
}
use lhgp.Store.Events.{NewEvent, append_event, get_events_by_request_id}

-- The keyword arguments that the four operations share.
pub record LeaseCall : Type 0 where
  pub contract_id : Ident
  pub partition_id : Option Ident
  pub at : Instant
  pub timeout : Span
  pub request_id : Option Ident
  pub actor : Ident
  pub payload : Payload
  pub schema_version : ℕ
  pub role : Option Ident
  pub contract_revision : Option ℕ

-- A key that is absent or empty is no key.
abbrev pub truthy : Option Ident → Option Ident
truthy none = none
truthy (some r) = if r == 0 then none else some r

-- `a or b` on texts.
abbrev pub or_text : Option Ident → Ident → Ident
or_text o d = or_else (truthy o) d

abbrev pub partition_key : Option Ident → Ident
partition_key partition_id = or_text partition_id 0

abbrev pub lease_at : Ident → Ident → StoredLease → Bool
lease_at contract_id part_key row = row.contract_id == contract_id && row.partition_id == part_key

unfoldable pub get_lease : Ident → Option Ident → Store → Option StoredLease
get_lease contract_id partition_id s =
    find (lease_at contract_id (partition_key partition_id)) s.leases

abbrev pub goal_of : Option ContractView → Ident → Ident
goal_of none contract_id = contract_id
goal_of (some row) contract_id = if row.goal_id == 0 then contract_id else row.goal_id

unfoldable pub goal_id_for_contract : Ident → Store → Ident
goal_id_for_contract contract_id s =
    goal_of (find (λ row. row.contract_id == contract_id) s.contracts) contract_id

-- The lease that a repeated call answers with: the key has been seen, and the lease is there.
abbrev pub replay_of : List StoredEvent → Option StoredLease → Option StoredLease
replay_of [] lease = none
replay_of (e ∷ es) lease = lease

abbrev pub replay_by : Option Ident → LeaseCall → Store → Option StoredLease
replay_by none c s = none
replay_by (some r) c s =
    replay_of (get_events_by_request_id r s) (get_lease c.contract_id c.partition_id s)

unfoldable pub replayed_lease : LeaseCall → Store → Option StoredLease
unfolding get_events_by_request_id get_lease
replayed_lease c s = replay_by (truthy c.request_id) c s

unfoldable pub lease_event : LeaseCall → EventType → Ident → ℕ → Payload → Store → NewEvent
unfolding goal_id_for_contract
lease_event c event_type holder generation body s = record {
  contract_id = some c.contract_id;
  event_type = event_type;
  payload = body;
  now = c.at;
  attempt_id = some holder;
  lease_generation = some generation;
  request_id = c.request_id;
  actor = c.actor;
  schema_version = c.schema_version;
  goal_id = some (goal_id_for_contract c.contract_id s);
  contract_revision = c.contract_revision;
  role = some (or_text c.role c.actor);
  payload_schema_version = some c.schema_version;
}

abbrev lease_body : LeaseCall → Ident → ℕ → Payload
lease_body c holder generation =
    ("actor", Value.id c.actor)
    ∷ ("holder_attempt_id", Value.id holder)
    ∷ ("generation", Value.num generation)
    ∷ ("partition_id", id_or_null c.partition_id)
    ∷ []

-- The lookup after the commit, and its error where the row is not there.
abbrev retrieved : Error → Option StoredLease → Store → Result (StoredLease × Store)
retrieved e none s = err e
retrieved e (some lease) s = ok (lease, s)

abbrev pub generation_of : Option StoredLease → ℕ
generation_of none = 0
generation_of (some lease) = lease.generation

-- Each operation's part in the transaction that follows its checks: the write and its event.
unfoldable pub write_acquired : LeaseCall → Ident → ℕ → Store → Store
unfolding lease_event append_event merge
write_acquired c holder generation s =
    let row : StoredLease = record {
      contract_id = c.contract_id;
      partition_id = partition_key c.partition_id;
      holder_attempt_id = holder;
      generation = generation;
      heartbeat_at = c.at;
      timeout = c.timeout;
    } in
    let s' = record s {
      leases =
          upsert (lease_at c.contract_id (partition_key c.partition_id)) row
            (λ old. record old {
              holder_attempt_id = holder;
              generation = generation;
              heartbeat_at = c.at;
              timeout = c.timeout;
            })
            s.leases;
    } in
    (append_event
      (lease_event c EventType.lease_acquired holder generation
        (merge (lease_body c holder generation) c.payload) s)
      s').1

-- `acquire_lease`: the caller names the generation that it expects, 0 where there is no lease.
unfoldable pub acquire_lease : LeaseCall → Ident → ℕ → Action StoredLease
unfolding replayed_lease get_lease write_acquired
acquire_lease c holder expected s = elim (replayed_lease c s) [
  | some lease ↦ ok (lease, s)
  | none ↦
      if expected == generation_of (get_lease c.contract_id c.partition_id s)
      then (let s' = write_acquired c holder (expected + 1) s in
          retrieved lease_cas (get_lease c.contract_id c.partition_id s') s')
      else err lease_cas
]

unfoldable pub write_reclaimed : LeaseCall → Ident → Ident → ℕ → Payload → Store → Store
unfolding lease_event append_event merge
write_reclaimed c previous holder generation reason s =
    let s' = record s {
      leases =
          update_where (lease_at c.contract_id (partition_key c.partition_id))
            (λ old. record old {
              holder_attempt_id = holder;
              generation = generation;
              heartbeat_at = c.at;
              timeout = c.timeout;
            })
            s.leases;
    } in
    (append_event
      (lease_event c EventType.lease_reclaimed holder generation
        (merge
          (("actor", Value.id c.actor)
            ∷ ("previous_holder_attempt_id", Value.id previous)
            ∷ ("holder_attempt_id", Value.id holder)
            ∷ ("generation", Value.num generation)
            ∷ ("partition_id", id_or_null c.partition_id)
            ∷ reason)
          c.payload)
        s)
      s').1

-- What a NOT NULL column does with a NULL.
abbrev pub not_null : Option Ident → Result Ident
not_null none = err integrity_error
not_null (some x) = ok x

-- The UPDATE writes the new holder into `holder_attempt_id`, a NOT NULL column.
abbrev pub reclaim_for : Option Ident → LeaseCall → StoredLease → ℕ → Payload → Action StoredLease
unfolding write_reclaimed get_lease
reclaim_for holder c current expected reason s = elim (not_null holder) [
  | err e ↦ err e
  | ok new_holder ↦
      let s' = write_reclaimed c current.holder_attempt_id new_holder (expected + 1) reason s in
      retrieved lease_cas (get_lease c.contract_id c.partition_id s') s'
]

-- `reclaim_lease`: takes a lease over from its holder; `reason` is the payload's text.
unfoldable pub reclaim_lease : LeaseCall → Option Ident → ℕ → Value → Action StoredLease
unfolding replayed_lease get_lease reclaim_for
reclaim_lease c holder expected cause s = elim (replayed_lease c s) [
  | some lease ↦ ok (lease, s)
  | none ↦ elim (get_lease c.contract_id c.partition_id s) [
    | none ↦ err lease_cas
    | some current ↦
        if current.generation == expected
        then reclaim_for holder c current expected (("reason", cause) ∷ []) s
        else err lease_cas
  ]
]

-- The test of both `renew_lease` and `release_lease`.
abbrev pub held_by : Ident → ℕ → StoredLease → Bool
held_by holder generation lease =
    lease.generation == generation && lease.holder_attempt_id == holder

unfoldable pub write_renewed : LeaseCall → Ident → ℕ → Store → Store
unfolding lease_event append_event
write_renewed c holder generation s =
    let s' = record s {
      leases =
          update_where (lease_at c.contract_id (partition_key c.partition_id))
            (λ old. record old { heartbeat_at = c.at; timeout = c.timeout }) s.leases;
    } in
    (append_event
      (lease_event c EventType.lease_renewed holder generation (lease_body c holder generation) s)
      s').1

unfoldable pub renew_lease : LeaseCall → Ident → ℕ → Action StoredLease
unfolding replayed_lease get_lease write_renewed
renew_lease c holder generation s = elim (replayed_lease c s) [
  | some lease ↦ ok (lease, s)
  | none ↦ elim (get_lease c.contract_id c.partition_id s) [
    | none ↦ err lease_fenced
    | some current ↦
        if held_by holder generation current
        then (let s' = write_renewed c holder generation s in
            retrieved lease_fenced (get_lease c.contract_id c.partition_id s') s')
        else err lease_fenced
  ]
]

unfoldable pub write_released : LeaseCall → Ident → ℕ → Store → Store
unfolding lease_event append_event
write_released c holder generation s =
    let s' = record s {
      leases = delete_where (lease_at c.contract_id (partition_key c.partition_id)) s.leases;
    } in
    (append_event
      (lease_event c EventType.lease_released holder generation (lease_body c holder generation) s)
      s').1

-- `release_lease` returns at once where the key was seen, whatever the lease is now.
abbrev pub release_of :
    List StoredEvent → Option StoredLease → LeaseCall → Ident → ℕ → Action (Unit {0})
unfolding write_released
release_of (e ∷ es) lease c holder generation s = ok (tt, s)
release_of [] none c holder generation s = ok (tt, s)
release_of [] (some current) c holder generation s =
    if held_by holder generation current
    then ok (tt, write_released c holder generation s)
    else err lease_fenced

abbrev pub seen_by : Option Ident → Store → List StoredEvent
seen_by none s = []
seen_by (some r) s = get_events_by_request_id r s

unfoldable pub release_lease : LeaseCall → Ident → ℕ → Action (Unit {0})
unfolding get_events_by_request_id get_lease release_of
release_lease c holder generation s =
    release_of (seen_by (truthy c.request_id) s) (get_lease c.contract_id c.partition_id s) c holder
      generation s
