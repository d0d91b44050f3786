-- ===== src/Promoter/Tests.antt =====
-- Examples of the promoter's rules.
use lhgp.Prelude.{
  ℕ, ◌/◌, ◌≤◌, ◌≡◌, ◌↔◌, true, false, not, Option, none, some, [], ◌∷◌, ◌++◌, ◌==◌, nat_eq, filter,
  leb, ltb, arith, if◌then◌else◌,
}
use lhgp.Contracts.Policies.{Ident}
use lhgp.Promoter.Urgency.{UrgencyTier, tier_eq, Floats, UrgencyThresholds}
use lhgp.Promoter.Urgency.Order.{IsOrder}
use lhgp.Promoter.Escalation.{Situation, left, decide}
use lhgp.Promoter.Escalation.Laws.{decide_dispatches}
use lhgp.Promoter.Fairness.{
  TickCapacityLedger, ContractFairnessState, dispatched_count, observe_tick, is_starved, starves,
  apply_fairness_order,
}
use lhgp.Promoter.Fairness.Capacity.{asked_all, capacity_respected}
use lhgp.Promoter.Fairness.Starvation.{starved_first, passed_over, starved_after}

-- Numbers with two decimals.
abbrev hundredths : Floats
hundredths = record {
  Float = ℕ;
  lt = λ a b. ltb a b;
  le = λ a b. leb a b;
  div = λ a b. a / b;
  zero_point = 0;
}

abbrev thresholds : UrgencyThresholds hundredths
thresholds = record { remind = 25; steer = 50; respawn = 100; hand_to_user = 150 }

hundredths-IsOrder : IsOrder hundredths
unfolding IsOrder
hundredths-IsOrder u v x above below = ground arith

abbrev situation : Situation
situation = record {
  lease_alive = false;
  budget_dispatches_left = left 2;
  budget_escalations_left = left 1;
  estimate_stalled = true;
  partitions_allowed = true;
  budget_cost_left = some (left 7);
}

decide_dispatches_example :
    let d = decide (some UrgencyTier.steer) situation in
    (d.consumes_dispatch ≡ true)
    × ((d.tier ≡ some UrgencyTier.respawn) ↔ (d.consumes_dispatch ≡ true))
decide_dispatches_example = decide_dispatches UrgencyTier.steer situation

abbrev ledger : TickCapacityLedger
ledger = record {
  config = record { starvation_ticks = 5; max_dispatches_per_tick = 2 };
  dispatched = [];
}

capacity_respected_example : dispatched_count (asked_all (1 ∷ 2 ∷ 1 ∷ 3 ∷ 4 ∷ []) ledger) ≤ 2
unfolding dispatched_count
capacity_respected_example =
    capacity_respected (1 ∷ 2 ∷ 1 ∷ 3 ∷ 4 ∷ []) ledger (omega arith) (omega arith)

abbrev fresh : ContractFairnessState
fresh = record {
  contract_id = 2;
  last_tier = none;
  tier_consecutive_ticks = 0;
  ticks_since_last_dispatch = 0;
}

-- Contract 2 has waited for six ticks.
abbrev states : Ident → Option ContractFairnessState
states cid = if cid == 2 then some (record fresh { ticks_since_last_dispatch = 6 }) else none

starved_first_example :
    apply_fairness_order (1 ∷ 2 ∷ 3 ∷ []) states
    ≡ filter (starves states) (1 ∷ 2 ∷ 3 ∷ [])
      ++ filter (λ c. not (starves states c)) (1 ∷ 2 ∷ 3 ∷ [])
starved_first_example = starved_first (1 ∷ 2 ∷ 3 ∷ []) states

starved_after_example :
    is_starved (passed_over (0 ∷ 1 ∷ 0 ∷ 1 ∷ 0 ∷ []) (observe_tick 3 true fresh).1) ≡ true
starved_after_example = starved_after 3 (0 ∷ 1 ∷ 0 ∷ 1 ∷ 0 ∷ []) fresh
