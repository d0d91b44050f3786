-- ===== src/Store/Types.antt =====
-- The rows of the store's tables, its errors, and what a call in a transaction returns
-- (src/lhgp/persistence/types.py, errors.py, src/longtask/persistence/schema.py).
use Prim.Native.String.{String}
use text.Mathlib.Text.{◌==◌ as str_eq}
use lhgp.Prelude.{
  ℕ, Bool, Option, none, some, List, [], ◌∷◌, if◌then◌else◌, leb, ◌+◌, ◌≡◌, refl, ◌⊎◌, inl, inr,
}
use lhgp.Contracts.Axes.{ContractState, DeadlineStatus, AcceptanceStatus, BlockReason, AttemptState}
use lhgp.Contracts.Policies.{Ident, Instant, Span, Json, ContractDraft, NotifyKind, Fields}
use lhgp.Store.EventType.{EventType}

-- What the store writes into the payload of an event; an enumeration stands for its wire value.
pub data Value : Type 0 where
  null : Value
  num : ℕ → Value
  word : String → Value
  id : Ident → Value
  state : ContractState → Value
  deadline : DeadlineStatus → Value
  acceptance : AcceptanceStatus → Value
  reason : BlockReason → Value
  event : EventType → Value
  flag : Bool → Value
  transition_to : ContractState → Value
  json : Json → Value
  terms : Ident → List Json → Ident → Value

abbrev pub Payload : Type 0
Payload = List (String × Value)

abbrev pub id_or_null : Option Ident → Value
id_or_null none = null
id_or_null (some x) = id x

-- `d[key] = v`, and `{**base, **extra}`.
pub put : String → Value → Payload → Payload
put k v [] = (k, v) ∷ []
put k v ((j, w) ∷ d) = if str_eq j k then (k, v) ∷ d else (j, w) ∷ put k v d

unfoldable pub merge : Payload → Payload → Payload
unfolding put
merge base [] = base
merge base ((k, v) ∷ extra) = merge (put k v base) extra

pub record StoredEvent : Type 0 where
  pub event_id : ℕ
  pub contract_id : Option Ident
  pub goal_id : Option Ident
  pub attempt_id : Option Ident
  pub lease_generation : Option ℕ
  pub contract_revision : Option ℕ
  pub role : Option Ident
  pub event_type : EventType
  pub payload : Payload
  pub payload_schema_version : ℕ
  pub request_id : Option Ident
  pub created_at : Instant
  pub actor : Ident
  pub schema_version : ℕ

-- A row of `leases`; `partition_id` is the stored key, 0 for the global partition.
pub record StoredLease : Type 0 where
  pub contract_id : Ident
  pub partition_id : Ident
  pub holder_attempt_id : Ident
  pub generation : ℕ
  pub heartbeat_at : Instant
  pub timeout : Span

unfoldable pub is_alive : StoredLease → Instant → Bool
is_alive lease now = leb now (lease.heartbeat_at + lease.timeout)

pub record ContractView : Type 0 where
  pub draft : ContractDraft
  pub contract_id : Ident
  pub goal_id : Ident
  pub revision : ℕ
  pub state : ContractState
  pub deadline_status : DeadlineStatus
  pub acceptance_status : AcceptanceStatus
  pub created_at : Instant
  pub updated_at : Instant
  pub next_wakeup_at : Option Instant
  pub next_decision_at : Option Instant
  pub blocked_reason : Option BlockReason

-- A row of `contract_revisions`.
pub record Snapshot : Type 0 where
  pub contract_id : Ident
  pub revision : ℕ
  pub draft : ContractDraft
  pub state : ContractState
  pub deadline_status : DeadlineStatus
  pub acceptance_status : AcceptanceStatus
  pub blocked_reason : Option BlockReason
  pub recorded_at : Instant
  pub recorded_by : Ident
  pub change_reason : Value

-- A row of `attempts`.
pub record StoredAttempt : Type 0 where
  pub attempt_id : Ident
  pub goal_id : Ident
  pub contract_id : Option Ident
  pub contract_revision : ℕ
  pub role : Ident
  pub executor_id : Option Ident
  pub model_id : Option Ident
  pub state : AttemptState
  pub lease_generation : Option ℕ
  pub admitted_at : Instant
  pub started_at : Option Instant
  pub terminal_at : Option Instant
  pub return_code : Option ℕ
  pub error_class : Option Ident
  pub payload : Json
  pub external_run_id : Option Ident
  pub session_locator : Option Ident
  pub recovery_strategy : Option Ident
  pub process_identity : Json
  pub capability_snapshot : Json
  pub handle_registered_at : Option Instant
  pub orphaned_at : Option Instant
  pub usage : Json
  pub updated_at : Instant

pub data NoticeStatus : Type 0 where
  pending leased sent : NoticeStatus

-- A row of `notification_outbox`; its idempotency key is `<contract>:event:<event>`, and its channel
-- is always the same.
pub record Notification : Type 0 where
  pub notification_id : ℕ
  pub contract_id : Ident
  pub event_id : ℕ
  pub goal_id : Ident
  pub event_type : NotifyKind
  pub payload : Payload
  pub available_at : Instant
  pub status : NoticeStatus
  pub attempts : ℕ
  pub lease_until : Option Instant
  pub last_error : Option Ident
  pub created_at : Instant
  pub updated_at : Instant

-- A row of `goals`; the plan and the progress are dictionaries of JSON.
pub record Goal : Type 0 where
  pub goal_id : Ident
  pub revision : ℕ
  pub title : Ident
  pub objective : Ident
  pub plan : Fields
  pub progress : Fields
  pub created_at : Instant
  pub updated_at : Instant
  pub schema_version : ℕ

pub record Store : Type 0 where
  pub goals : List Goal
  pub contracts : List ContractView
  pub snapshots : List Snapshot
  pub events : List StoredEvent
  pub next_event_id : ℕ
  pub leases : List StoredLease
  pub attempts : List StoredAttempt
  pub outbox : List Notification
  pub next_notification_id : ℕ

pub data Error : Type 0 where
  store_error value_error lease_cas lease_fenced revision_conflict illegal_state_transition
        idempotency_mismatch integrity_error :
      Error

pub data Result {ℓ} (A : Type ℓ) : Type ℓ where
  ok : A → Result A
  err : Error → Result A

pub Result-cases {ℓ} :
    {A : Type ℓ} (r : Result A) → ((e : Error) × (r ≡ err e)) ⊎ ((a : A) × (r ≡ ok a))
Result-cases (ok a) = inr (a, refl)
Result-cases (err e) = inl (e, refl)

-- A call on a connection. The outermost transaction of a call that raises is rolled back, so an
-- error comes without a store: the store is as it was.
abbrev pub Action : Type 0 → Type 0
Action A = Store → Result (A × Store)
