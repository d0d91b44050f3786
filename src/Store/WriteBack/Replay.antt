-- ===== src/Store/WriteBack/Replay.antt =====
-- A write back that carries a request id may be repeated (src/longtask/persistence/store.py,
-- `write_back`).
use mathlib.Core.Path.{subst}
use lhgp.Prelude.{
  ℕ, ◌+◌, ◌≡◌, refl, true, Option, none, some, List, [], ◌∷◌, ◌++◌, nat_eq, ==_refl, filter, all,
  map, All, filter_append, filter_all, all-All, All-map, append_nil, append_snoc, sym, List-cases,
  inl, inr, arith, ◌∙◌,
}
use lhgp.Contracts.Policies.{Ident}
use lhgp.Contracts.Axes.{ContractState}
use lhgp.Store.Requests.{owned_by, replayed_events}
use lhgp.Store.Types.{StoredEvent, ContractView, Store, Result-cases, ok}
use lhgp.Store.Events.{append_event, asked_by, stored_event, get_events_by_request_id}
use lhgp.Store.Quiet.{Platform}
use lhgp.Store.Leases.{truthy}
use lhgp.Store.Contracts.{update_contract_state, get_contract, restamp, state_event}
use lhgp.Store.Contracts.Update.{Updated, update_contract_state-Updated}
use lhgp.Store.Contracts.Replay.{filter-restamp}
use lhgp.Store.WriteBack.{
  EventInput, WriteBack, WriteBackResult, record_report, change_of, change_state, input_event,
  append_inputs, bookkeeping_event, log_events, result_of, revision_of, write_back,
}
use lhgp.Store.WriteBack.Fence.{write_back-Done}

-- The rows that the loop over the events adds.
abbrev rows : WriteBack → List EventInput → ℕ → List StoredEvent
rows w [] n = []
rows w (i ∷ is) n = stored_event (input_event w i) n ∷ rows w is (n + 1)

append_inputs-rows :
    (w : WriteBack) (is : List EventInput) (s : Store)
    → ((append_inputs w is s).0 ≡ map StoredEvent.event_id (rows w is s.next_event_id))
      × ((append_inputs w is s).1.events ≡ s.events ++ rows w is s.next_event_id)
unfolding append_inputs append_event stored_event
append_inputs-rows w [] s = (refl, sym (append_nil s.events))
append_inputs-rows w (i ∷ is) s =
    let h = append_inputs-rows w is (append_event (input_event w i) s).1 in
    (
      rw (h.0) refl,
      h.1
          ∙ append_snoc s.events (stored_event (input_event w i) s.next_event_id)
              (rows w is (s.next_event_id + 1)),
    )

-- The row carries the key, and is the contract's own.
abbrev Marked : WriteBack → Ident → StoredEvent → Type 0
Marked w k e = (asked_by k e ≡ true) × (owned_by w.contract_id e ≡ true)

abbrev KeyLess : List EventInput → Type 0
KeyLess is = All (λ i. truthy i.request_id ≡ none) is

rows-Marked :
    (w : WriteBack) (k : Ident) (is : List EventInput) (n : ℕ)
    → truthy w.request_id ≡ some k
    → KeyLess is
    → All (Marked w k) (rows w is n)
unfolding stored_event input_event
rows-Marked w k [] n key free = tt
rows-Marked w k (i ∷ is) n key free =
    ((ground arith, ==_refl w.contract_id), rows-Marked w k is (n + 1) key free.1)

bookkeeping-Marked :
    (w : WriteBack) (k : Ident) (n : ℕ)
    → truthy w.request_id ≡ some k
    → Marked w k (stored_event (bookkeeping_event w) n)
unfolding stored_event bookkeeping_event
bookkeeping-Marked w k n key = (ground arith, ==_refl w.contract_id)

-- What the call has logged: one row at least, each with the key.
record Logged (w : WriteBack) (k : Ident) (s : Store) (r : List ℕ × Store) : Type 0 where
  first : StoredEvent
  others : List StoredEvent
  ids : r.0 ≡ map StoredEvent.event_id (first ∷ others)
  events : r.1.events ≡ s.events ++ first ∷ others
  marked : All (Marked w k) (first ∷ others)

log_events-Logged :
    (w : WriteBack) (k : Ident) (s : Store)
    → truthy w.request_id ≡ some k
    → KeyLess w.events
    → Logged w k s (log_events w s)
unfolding log_events append_inputs append_event stored_event bookkeeping_event input_event
log_events-Logged w k s key free = elim (List-cases w.events) [
  | inl e ↦
      rw (key, e)
        (record {
          first = stored_event (bookkeeping_event w) s.next_event_id;
          others = [];
          ids = refl;
          events = refl;
          marked = (bookkeeping-Marked w k s.next_event_id key, tt);
        })
  | inr (i, is, e) ↦
      let h = append_inputs-rows w (i ∷ is) s in
      rw (key, e)
        (record {
          first = stored_event (input_event w i) s.next_event_id;
          others = rows w is (s.next_event_id + 1);
          ids = h.0;
          events = h.1;
          marked = rows-Marked w k (i ∷ is) s.next_event_id key (subst KeyLess e free);
        })
]

unseen_after :
    (w : WriteBack) (k : Ident) (c : ContractState) (s u : Store) (row : ContractView)
    → Updated (change_of w c) s row u
    → filter (asked_by k) s.events ≡ []
    → filter (asked_by k) u.events ≡ []
unfolding stored_event state_event
unseen_after w k c s u row up fresh = rw (up.written.events) (
    filter_append (asked_by k) (restamp w.contract_id (up.current.revision + 1) s.events) _
    ∙ rw (filter-restamp k w.contract_id (up.current.revision + 1) s.events fresh) refl)

-- Changing the state logs nothing under the call's key.
change_state_unseen :
    (p : Platform) (w : WriteBack) (k : Ident) (o : Option ContractState) (s t : Store)
    (n : Option ℕ)
    → get_events_by_request_id k s ≡ []
    → change_state p w o s ≡ ok (n, t)
    → get_events_by_request_id k t ≡ []
unfolding get_events_by_request_id
change_state_unseen p w k none s t n fresh done = ground arith
change_state_unseen p w k (some c) s t n fresh done =
    elim (Result-cases (update_contract_state p (change_of w c) s)) [
      | inl (e, bad) ↦ absurd (cc (done, bad))
      | inr ((row, u), good) ↦
          let up = update_contract_state-Updated p (change_of w c) s u row refl good in
          let same : u ≡ t = ground arith in rw (← same) (unseen_after w k c s u row up fresh)
    ]

-- A call whose key has been seen, by this contract alone, answers with the logged events.
replay_hit :
    (p : Platform) (v : WriteBack) (t : Store) (k : Ident) (e : StoredEvent) (es : List StoredEvent)
    → truthy v.request_id ≡ some k
    → get_events_by_request_id k t ≡ e ∷ es
    → all (owned_by v.contract_id) (e ∷ es) ≡ true
    → write_back p v t
      ≡ ok (
        result_of v
            (map StoredEvent.event_id (e ∷ es))
            (revision_of (get_contract v.contract_id t)),
        t,
      )
unfolding write_back replayed_events
replay_hit p v t k e es key seen own = ground arith

record_report-events :
    (p : Platform) (w : WriteBack) (s : Store) → (record_report p w s).events ≡ s.events
unfolding record_report
record_report-events p w s = refl

-- Repeating a write back of a contract with its non-empty request id, whatever else the repetition says,
-- changes nothing and names the same events as the first call; the revision it gives is the
-- contract's at the time. The first call is no replay, and its events bring no request ids of their
-- own.
pub write_back_replay :
    (p : Platform) (w v : WriteBack) (s t : Store) (r : WriteBackResult) (k : Ident)
    → truthy w.request_id ≡ some k
    → v.request_id ≡ w.request_id
    → v.contract_id ≡ w.contract_id
    → get_events_by_request_id k s ≡ []
    → All (λ i. truthy i.request_id ≡ none) w.events
    → write_back p w s ≡ ok (r, t)
    → write_back p v t
      ≡ ok (result_of v r.event_ids (revision_of (get_contract v.contract_id t)), t)
unfolding get_events_by_request_id
write_back_replay p w v s t r k key same_id same_contract fresh free done =
    let d = write_back-Done p w s t r (rw (key, fresh) refl) done in
    let g = log_events-Logged w k d.middle key free in
    let quiet =
      change_state_unseen p w k w.contract_state (record_report p w s) d.middle d.revision
        (rw (record_report-events p w s) fresh) d.changed in
    let seen : get_events_by_request_id k t ≡ g.first ∷ g.others =
      rw (d.after, g.events)
        (filter_append (asked_by k) d.middle.events (g.first ∷ g.others)
          ∙ rw
              (
                quiet,
                filter_all (asked_by k) (g.first ∷ g.others)
                    (All-map (g.first ∷ g.others) (λ e m. m.0) g.marked),
              )
              refl) in
    let own =
      all-All (owned_by w.contract_id) (g.first ∷ g.others)
        (All-map (g.first ∷ g.others) (λ e m. m.1) g.marked) in
    rw (d.returned, g.ids)
      (replay_hit p v t k g.first g.others (rw same_id key) seen
        (subst (λ c. all (owned_by c) (g.first ∷ g.others) ≡ true) (sym same_contract) own))
