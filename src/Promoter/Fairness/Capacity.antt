-- ===== src/Promoter/Fairness/Capacity.antt =====
-- The capacity of a tick (src/lhgp/promoter/fairness.py).
use lhgp.Prelude.{
  ◌≤◌, ◌<◌, ◌≡◌, refl, true, false, List, [], ◌∷◌, ◌++◌, nat_eq, if◌then◌else◌, contains, length,
  length-append, arith, ==_refl,
}
use lhgp.Contracts.Policies.{Ident}
use lhgp.Promoter.Fairness.{TickCapacityLedger, can_dispatch, record_dispatch, dispatched_count}

-- A contract that asks is dispatched where it may be.
abbrev pub asked : Ident → TickCapacityLedger → TickCapacityLedger
asked cid ledger = if can_dispatch cid ledger then record_dispatch cid ledger else ledger

-- A tick in which the contracts ask in turn.
abbrev pub asked_all : List Ident → TickCapacityLedger → TickCapacityLedger
asked_all [] ledger = ledger
asked_all (cid ∷ cids) ledger = asked_all cids (asked cid ledger)

contains_last : (a : Ident) (xs : List Ident) → contains a (xs ++ a ∷ []) ≡ true
contains_last a [] = rw (==_refl a) refl
contains_last a (x ∷ xs) = ground (arith, contains_last a xs)

contains_before :
    (a b : Ident) (xs : List Ident) → contains a xs ≡ true → contains a (xs ++ b ∷ []) ≡ true
contains_before a b [] h = cc
contains_before a b (x ∷ xs) h = ground (arith, contains_before a b xs)

asked_config : (cid : Ident) (l : TickCapacityLedger) → (asked cid l).config ≡ l.config
unfolding record_dispatch
asked_config cid l = ground arith

asked_room :
    (cid : Ident) (l : TickCapacityLedger)
    → 0 < l.config.max_dispatches_per_tick
    → length l.dispatched ≤ l.config.max_dispatches_per_tick
    → length (asked cid l).dispatched ≤ l.config.max_dispatches_per_tick
unfolding can_dispatch record_dispatch
asked_room cid l cap room = ground (arith, length-append l.dispatched (cid ∷ []))

asked_keeps :
    (cid b : Ident) (l : TickCapacityLedger)
    → contains cid l.dispatched ≡ true
    → contains cid (asked b l).dispatched ≡ true
unfolding record_dispatch
asked_keeps cid b l h = ground (arith, contains_before cid b l.dispatched)

kept_through :
    (cid : Ident) (cids : List Ident) (l : TickCapacityLedger)
    → contains cid l.dispatched ≡ true
    → contains cid (asked_all cids l).dispatched ≡ true
kept_through cid [] l h = h
kept_through cid (b ∷ cids) l h = kept_through cid cids (asked b l) (asked_keeps cid b l h)

-- With a cap, and no more dispatched than the cap at the start, a tick never dispatches more contracts
-- than the cap, however many ask and however often.
pub capacity_respected :
    (cids : List Ident) (l : TickCapacityLedger)
    → 0 < l.config.max_dispatches_per_tick
    → dispatched_count l ≤ l.config.max_dispatches_per_tick
    → dispatched_count (asked_all cids l) ≤ l.config.max_dispatches_per_tick
unfolding dispatched_count
capacity_respected [] l cap room = room
capacity_respected (cid ∷ cids) l cap room =
    let kept = asked_config cid l in
    let h =
      capacity_respected cids (asked cid l) (rw kept cap) (rw kept (asked_room cid l cap room)) in
    rw kept at h

-- A contract that has been dispatched is not dispatched again in the same tick, whichever contracts
-- ask in between.
pub dispatched_once :
    (cid : Ident) (cids : List Ident) (l : TickCapacityLedger)
    → can_dispatch cid l ≡ true
    → can_dispatch cid (asked_all cids (asked cid l)) ≡ false
unfolding can_dispatch record_dispatch
dispatched_once cid cids l free =
    let there : contains cid (asked cid l).dispatched ≡ true =
      ground (arith, contains_last cid l.dispatched) in
    rw (kept_through cid cids (asked cid l) there) refl
