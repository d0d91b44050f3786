-- ===== src/Store/Contracts/Replay.antt =====
-- When `update_contract_state` succeeds, and what its repetition does
-- (src/longtask/persistence/store.py).
use mathlib.Core.Path.{subst}
use lhgp.Prelude.{
  ℕ, ◌+◌, ◌≡◌, refl, Bool, true, Option, none, some, List, [], ◌∷◌, ◌++◌, ◌==◌, nat_eq,
  if◌then◌else◌, option_beq, filter, all, inl, inr, Option-cases, List-cases, arith, ==_refl, sym,
}
use lhgp.Prelude.Tables.{update_where}
use lhgp.Contracts.Policies.{Ident}
use lhgp.Contracts.Axes.{state_eq}
use lhgp.Contracts.Machine.{is_valid_transition}
use lhgp.Store.Requests.{replayed_events, owned_by}
use lhgp.Store.Types.{
  StoredEvent, ContractView, Store, Result, ok, err, store_error, revision_conflict,
  illegal_state_transition,
}
use lhgp.Store.Events.{asked_by, stored_event, get_events_by_request_id}
use lhgp.Store.Leases.{truthy, seen_by}
use lhgp.Store.Quiet.{Platform}
use lhgp.Store.Contracts.{
  StateChange, get_contract, changed, restamp, revision_differs, assert_legal_contract_transition,
  write_change, change_current, update_contract_state, state_event,
}
use lhgp.Store.Contracts.Update.{
  Written, Updated, update_fresh, update_contract_state-Updated, write_change_total,
  set_columns_self,
}
use lhgp.Store.Contracts.Invariant.{IsValid, free_revision}

-- The answer of an update that is no replay, at a store that satisfies the invariant.
abbrev pub outcome : StateChange → Option ContractView → Result ContractView
outcome c none = err store_error
outcome c (some current) =
    if revision_differs c.expected_revision current.revision
    then err revision_conflict
    else if current.state == c.new_state
    then ok (changed c current)
    else if is_valid_transition current.state c.new_state
    then ok (changed c current)
    else err illegal_state_transition

abbrev pub answer {ℓ} : {A B : Type ℓ} → Result (A × B) → Result A
answer (ok r) = ok r.0
answer (err e) = err e

answer_of_current :
    (p : Platform) (c : StateChange) (current : ContractView) (s t : Store)
    → write_change p c current s ≡ ok t
    → get_contract c.contract_id t ≡ some (changed c current)
    → answer (change_current p c (some current) s) ≡ outcome c (some current)
unfolding change_current assert_legal_contract_transition
answer_of_current p c current s t wrote here = ground arith

-- Where the invariant holds and the call is no replay, the answer is exactly this: no such contract;
-- else a revision conflict, if another revision is expected; else an illegal transition; else the
-- changed contract. No write of a snapshot and no reading back ever fails.
pub answer-update_contract_state :
    (p : Platform) (c : StateChange) (s : Store)
    → IsValid s
    → seen_by (truthy c.request_id) s ≡ []
    → answer (update_contract_state p c s) ≡ outcome c (get_contract c.contract_id s)
unfolding change_current
answer-update_contract_state p c s v fresh = elim (Option-cases (get_contract c.contract_id s)) [
  | inl missing ↦ ground (arith, update_fresh p c s fresh)
  | inr (current, found) ↦
      let free = free_revision c.contract_id current s found v.snapshots_behind in
      let (t, wrote, here) = write_change_total p c current s found free in
      ground (arith, update_fresh p c s fresh, answer_of_current p c current s t wrote here)
]

-- Restamping leaves the request ids alone.
pub filter-restamp :
    (r cid : Ident) (n : ℕ) (es : List StoredEvent)
    → filter (asked_by r) es ≡ []
    → filter (asked_by r) (restamp cid n es) ≡ []
unfolding restamp update_where
filter-restamp r cid n [] h = refl
filter-restamp r cid n (e ∷ es) h = ground (arith, filter-restamp r cid n es)

pub filter-append_last :
    (p : StoredEvent → Bool) (es : List StoredEvent) (e : StoredEvent)
    → filter p es ≡ []
    → p e ≡ true
    → filter p (es ++ e ∷ []) ≡ e ∷ []
filter-append_last p [] e none_before h = rw h
filter-append_last p (x ∷ es) e none_before h = ground (arith, filter-append_last p es e)

pub own_key : (o : Option Ident) (r : Ident) → truthy o ≡ some r → option_beq o (some r) ≡ true
own_key o r key = ground arith

seen_after :
    (c : StateChange) (current : ContractView) (s t : Store) (r : Ident)
    → truthy c.request_id ≡ some r
    → get_events_by_request_id r s ≡ []
    → Written c current s t
    → get_events_by_request_id r t ≡ stored_event (state_event c current) s.next_event_id ∷ []
unfolding get_events_by_request_id stored_event state_event
seen_after c current s t r key fresh w = rw (w.events) (
    filter-append_last (asked_by r) (restamp c.contract_id (current.revision + 1) s.events) _
      (filter-restamp r c.contract_id (current.revision + 1) s.events fresh)
      (own_key c.request_id r key))

own_event :
    (c d : StateChange) (current : ContractView) (n : ℕ)
    → d.contract_id ≡ c.contract_id
    → all (owned_by d.contract_id) (stored_event (state_event c current) n ∷ []) ≡ true
unfolding stored_event state_event
own_event c d current n same = rw same (ground arith)

read_back :
    (c : StateChange) (s t : Store) (row : ContractView) (u : Updated c s row t)
    → get_contract c.contract_id t ≡ some (changed c u.current)
read_back c s t row u = ground (
  arith,
  u.written.contracts c.contract_id,
  u.found,
  ==_refl c.contract_id,
  set_columns_self c u.current,
)

-- A call whose key has been seen, by this contract alone, answers with the contract.
replay_hit :
    (p : Platform) (d : StateChange) (t : Store) (r : Ident) (e : StoredEvent)
    (es : List StoredEvent) (row : ContractView)
    → truthy d.request_id ≡ some r
    → get_events_by_request_id r t ≡ e ∷ es
    → all (owned_by d.contract_id) (e ∷ es) ≡ true
    → get_contract d.contract_id t ≡ some row
    → update_contract_state p d t ≡ ok (row, t)
unfolding update_contract_state replayed_events
replay_hit p d t r e es row key seen own here = ground arith

-- What a call that has seen its key can return.
pub replay_inversion :
    (p : Platform) (c : StateChange) (s t : Store) (r : Ident) (e : StoredEvent)
    (es : List StoredEvent) (row : ContractView)
    → truthy c.request_id ≡ some r
    → get_events_by_request_id r s ≡ e ∷ es
    → update_contract_state p c s ≡ ok (row, t)
    → (all (owned_by c.contract_id) (e ∷ es) ≡ true)
      × (get_contract c.contract_id s ≡ some row)
      × (t ≡ s)
unfolding update_contract_state replayed_events change_current
replay_inversion p c s t r e es row key seen done =
    elim (Option-cases (get_contract c.contract_id s)) [
      | inl missing ↦ (ground arith, ground arith, ground arith)
      | inr (old, found) ↦ (ground arith, ground arith, ground arith)
    ]

-- Repeating an update with its non-empty request id returns what the first call returned and changes nothing,
-- whatever change the repetition names for that contract.
pub update_contract_state_replay :
    (p : Platform) (c d : StateChange) (s t : Store) (row : ContractView) (r : Ident)
    → truthy c.request_id ≡ some r
    → d.request_id ≡ c.request_id
    → d.contract_id ≡ c.contract_id
    → update_contract_state p c s ≡ ok (row, t)
    → update_contract_state p d t ≡ ok (row, t)
update_contract_state_replay p c d s t row r key same_id same_contract done =
    elim (List-cases (get_events_by_request_id r s)) [
      | inl fresh ↦
          let u = update_contract_state-Updated p c s t row (rw (key, fresh)) done in
          replay_hit p d t r _ [] row (rw same_id key)
            (seen_after c u.current s t r key fresh u.written)
            (own_event c d u.current s.next_event_id same_contract)
            (rw (same_contract, u.returned) (read_back c s t row u))
      | inr (e, es, seen) ↦
          let (own, here, same) = replay_inversion p c s t r e es row key seen done in
          rw same (
            replay_hit p d s r e es row (rw same_id key) seen
              (subst (λ k. all (owned_by k) (e ∷ es) ≡ true) (sym same_contract) own)
              (rw same_contract here))
    ]
