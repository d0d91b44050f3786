-- ===== src/Goals/Authorizing.antt =====
-- Which drafts are approved without the user (src/longtask/persistence/store.py,
-- `auto_approve_drafted_contract` and what it calls).
pub mod Authority
pub mod Newest
use Prim.Native.String.{String}
use text.Mathlib.Text.{◌==◌ as str_eq}
use lhgp.Prelude.{
  ℕ, ◌+◌, Bool, true, false, Option, none, some, List, [], ◌∷◌, ◌==◌, nat_eq, ◌&&◌, ◌||◌, not,
  if◌then◌else◌, or_else, contains, all, ltb, leb, option_beq, is_some, map, filter,
}
use lhgp.Contracts.Axes.{ContractState, state_eq, AcceptanceStatus}
use lhgp.Contracts.Policies.{Ident, Instant, Json, Items, Fields, AutoApprove}
use lhgp.Contracts.Dicts.{get, as_true}
use lhgp.Contracts.Exchange.Keys.{enabled_key, actions_key}
use lhgp.Store.EventType.{EventType, event_eq}
use lhgp.Store.Types.{
  StoredEvent, Goal, Store, ContractView, Payload, Value, Result, ok, err, integrity_error, Action,
}
use lhgp.Store.Quiet.{Platform}
use lhgp.Store.Contracts.{StateChange, update_contract_state}
use lhgp.Goals.Progress.{Texts, text_of}
use lhgp.Goals.Amending.{get_goal, store_schema_version}

abbrev pub pre_authorized_key : Ident
pre_authorized_key = 49

abbrev pub wildcard_key : Ident
wildcard_key = 50

-- The text `daemon`.
abbrev pub daemon : Ident
daemon = 6

abbrev pub truthy_texts : Texts → Items → List Ident
truthy_texts t Items.nil = []
truthy_texts t (Items.cons x xs) = elim (as_true (some x)) [
  | none ↦ truthy_texts t xs
  | some v ↦ text_of t v ∷ truthy_texts t xs
]

-- The actions of a grant, if they are a list.
abbrev pub listed_actions : Texts → Option Json → Option (List Ident)
listed_actions t none = some []
listed_actions t (some (Json.arr xs)) = some (truthy_texts t xs)
listed_actions t (some v) = none

abbrev pub granted_actions : Texts → Fields → Option (List Ident)
granted_actions t grant = listed_actions t (as_true (get actions_key grant))

abbrev pub is_wildcard : Fields → Bool
is_wildcard grant = is_some (as_true (get wildcard_key grant))

-- Sets of texts are lists here, and `issubset` is membership of each.
abbrev pub is_subset : List Ident → List Ident → Bool
is_subset xs ys = all (λ x. contains x ys) xs

abbrev pub covers : List Ident → Bool → List Ident → Bool → Bool
covers previous previous_wildcard current current_wildcard =
    if previous_wildcard
    then current_wildcard
    else if current_wildcard
    then true
    else is_subset previous current

-- Actions that are no list count as none.
unfoldable pub grant_still_covers : Texts → Fields → Fields → Bool
grant_still_covers t previous current =
    covers (or_else (granted_actions t previous) []) (is_wildcard previous)
      (or_else (granted_actions t current) []) (is_wildcard current)

abbrev pub later_of : StoredEvent → Option StoredEvent → StoredEvent
later_of e none = e
later_of e (some f) = if ltb e.created_at f.created_at then f else e

-- ORDER BY created_at DESC LIMIT 1, times as in `is_amendment`; of rows with the same time, which the database may order as it
-- likes, the one that was written first.
unfoldable pub newest : (StoredEvent → Bool) → List StoredEvent → Option StoredEvent
newest p [] = none
newest p (e ∷ es) = if p e then some (later_of e (newest p es)) else newest p es

-- The source compares the texts of the times, in ISO format, and the model the times themselves: the
-- two agree where all times are written with one offset from UTC, as those of the daemon are.
abbrev pub is_amendment : Ident → Instant → StoredEvent → Bool
is_amendment goal_id at e =
    option_beq e.goal_id (some goal_id)
    && (e.event_type == EventType.goal_amended && leb e.created_at at)

abbrev pub payload_plan : Payload → Option Fields
payload_plan [] = none
payload_plan ((k, Value.json (Json.obj fs)) ∷ d) =
    if str_eq k "plan" then some fs else payload_plan d
payload_plan ((k, v) ∷ d) = if str_eq k "plan" then none else payload_plan d

abbrev pub as_grant : Option Json → Option Fields
as_grant (some (Json.obj fs)) = some fs
as_grant v = none

abbrev pub grant_in_plan : Option Fields → Option Fields
grant_in_plan none = none
grant_in_plan (some plan) = as_grant (get pre_authorized_key plan)

abbrev pub grant_in_event : Option StoredEvent → Option Fields
grant_in_event none = none
grant_in_event (some e) = grant_in_plan (payload_plan e.payload)

unfoldable pub grant_as_of : Ident → Instant → Store → Option Fields
unfolding newest
grant_as_of goal_id at s = grant_in_event (newest (is_amendment goal_id at) s.events)

-- `PLAN_OVERRIDE_LOOKBACK_SECONDS`, two hours in microseconds.
abbrev pub lookback : ℕ
lookback = 7200000000

-- A verdict of the last two hours; times as in `is_amendment`.
abbrev pub is_verdict : Ident → Instant → StoredEvent → Bool
is_verdict contract_id now e =
    option_beq e.contract_id (some contract_id)
    && ((e.event_type == EventType.plan_approved || e.event_type == EventType.plan_rejected)
        && leb now (e.created_at + lookback))

abbrev pub unknown_or_covers : Texts → Option Fields → Fields → Bool
unknown_or_covers t none current = true
unknown_or_covers t (some previous) current = grant_still_covers t previous current

abbrev pub verdict_approves : Texts → Ident → Fields → Option StoredEvent → Store → Bool
verdict_approves t goal_id current none s = false
verdict_approves t goal_id current (some e) s =
    e.event_type == EventType.plan_approved
    && unknown_or_covers t (grant_as_of goal_id e.created_at s) current

abbrev pub is_listed : List Ident → Bool
is_listed [] = false
is_listed (x ∷ xs) = true

unfoldable pub has_recent_plan_approval_for_goal :
    Texts → Ident → List Ident → Instant → Ident → Fields → Store → Bool
unfolding newest grant_as_of grant_still_covers
has_recent_plan_approval_for_goal t contract_id granted now goal_id current s =
    is_listed granted
    && verdict_approves t goal_id current (newest (is_verdict contract_id now) s.events) s

abbrev pub claimed_actions : AutoApprove → List Ident
claimed_actions claim = filter (λ a. not (a == 0)) claim.actions

unfoldable pub grant_clears :
    Texts → ContractView → Instant → Bool → Fields → List Ident → Store → Bool
unfolding has_recent_plan_approval_for_goal
grant_clears t contract now plan_approved_override grant granted s =
    if not (is_listed granted) && not (is_wildcard grant)
    then false
    else if not contract.draft.auto_approve.enabled
    then is_wildcard grant
      || (plan_approved_override
          && has_recent_plan_approval_for_goal t contract.contract_id granted now contract.goal_id
              grant s)
    else if not (is_listed (claimed_actions contract.draft.auto_approve)) && not (is_wildcard grant)
    then false
    else is_subset (claimed_actions contract.draft.auto_approve) granted

abbrev pub actions_clear :
    Texts → ContractView → Instant → Bool → Fields → Option (List Ident) → Store → Bool
actions_clear t contract now override grant none s = false
actions_clear t contract now override grant (some granted) s =
    grant_clears t contract now override grant granted s

abbrev pub plan_clears : Texts → ContractView → Instant → Bool → Option Fields → Store → Bool
plan_clears t contract now override none s = false
plan_clears t contract now override (some grant) s =
    is_some (as_true (get enabled_key grant))
    && actions_clear t contract now override grant (granted_actions t grant) s

abbrev pub goal_clears : Texts → ContractView → Instant → Bool → Option Goal → Store → Bool
goal_clears t contract now override none s = false
goal_clears t contract now override (some goal) s =
    plan_clears t contract now override (as_grant (get pre_authorized_key goal.plan)) s

unfoldable pub goal_pre_authorizes_contract : Texts → ContractView → Instant → Bool → Store → Bool
unfolding grant_clears
goal_pre_authorizes_contract t contract now plan_approved_override s =
    not (contract.goal_id == 0)
    && goal_clears t contract now plan_approved_override (get_goal contract.goal_id s) s

abbrev pub approval_of : ContractView → Instant → StateChange
approval_of contract now = record {
  contract_id = contract.contract_id;
  new_state = ContractState.active;
  now = now;
  expected_revision = some contract.revision;
  blocked_reason = none;
  next_wakeup_at = none;
  deadline_status = none;
  acceptance_status = none;
  next_decision_at = none;
  event_type = none;
  event_payload = [];
  request_id = none;
  actor = daemon;
  schema_version = store_schema_version;
}

-- The errors of the store count as "not approved"; an error of the database is raised.
abbrev pub best_effort : Result (ContractView × Store) → Action Bool
best_effort (ok (row, u)) s = ok (true, u)
best_effort (err integrity_error) s = err integrity_error
best_effort (err e) s = ok (false, s)

unfoldable pub auto_approve_drafted_contract :
    Platform → Texts → ContractView → Instant → Action Bool
unfolding goal_pre_authorizes_contract
auto_approve_drafted_contract p t contract now s =
    if not (contract.state == ContractState.drafted)
    then ok (false, s)
    else if not (goal_pre_authorizes_contract t contract now true s)
    then ok (false, s)
    else best_effort (update_contract_state p (approval_of contract now) s) s
