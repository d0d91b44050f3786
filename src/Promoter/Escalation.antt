-- ===== src/Promoter/Escalation.antt =====
-- The escalation ladder (src/lhgp/promoter/escalation.py).
pub mod Laws
use lhgp.Prelude.{ℕ, ltb, Bool, true, false, not, ◌||◌, Option, none, some, ◌==◌, if◌then◌else◌}
use lhgp.Promoter.Urgency.{UrgencyTier, tier_eq, min_tier}

-- Budgets are integers that may be overdrawn; an amount of money is a count of a small unit.
pub data Balance : Type 0 where
  left : ℕ → Balance
  overdrawn : ℕ → Balance

abbrev pub is_positive : Balance → Bool
is_positive (left n) = ltb 0 n
is_positive (overdrawn n) = false

-- The texts that are given as reasons, with what they quote.
pub data Reason : Type 0 where
  past_deadline : Reason
  lease_alive : UrgencyTier → UrgencyTier → Reason
  cost_exhausted : Balance → Reason
  steer_without_budget : Reason
  nothing_to_steer : Reason
  free_action : UrgencyTier → Reason
  dispatch_exhausted : Reason
  estimate_stalled : Bool → Balance → Reason
  respawn_due : Reason

pub record EscalationDecision : Type 0 where
  pub tier : Option UrgencyTier
  pub reason : Reason
  pub consumes_dispatch : Bool
  pub consumes_escalation : Bool

-- The keyword arguments of `decide`.
pub record Situation : Type 0 where
  pub lease_alive : Bool
  pub budget_dispatches_left : Balance
  pub budget_escalations_left : Balance
  pub estimate_stalled : Bool
  pub partitions_allowed : Bool
  pub budget_cost_left : Option Balance

abbrev decision : UrgencyTier → Reason → Bool → EscalationDecision
decision tier reason dispatch = record {
  tier = some tier;
  reason = reason;
  consumes_dispatch = dispatch;
  consumes_escalation = false;
}

-- The amount that is left of the cost budget, where there is one and it is exhausted.
abbrev pub exhausted_cost : Option Balance → Option Balance
exhausted_cost none = none
exhausted_cost (some cost) = if is_positive cost then none else some cost

abbrev respawned : Situation → EscalationDecision
respawned s =
    if s.estimate_stalled
    then decision UrgencyTier.respawn
        (Reason.estimate_stalled s.partitions_allowed s.budget_escalations_left) true
    else decision UrgencyTier.respawn Reason.respawn_due true

abbrev without_lease : UrgencyTier → Situation → EscalationDecision
without_lease tier s =
    if tier == UrgencyTier.steer
    then (if not (is_positive s.budget_dispatches_left)
        then decision UrgencyTier.hand_to_user Reason.steer_without_budget false
        else decision UrgencyTier.respawn Reason.nothing_to_steer true)
    else if tier == UrgencyTier.queued || tier == UrgencyTier.remind
    then decision tier (Reason.free_action tier) false
    else if not (is_positive s.budget_dispatches_left)
    then decision UrgencyTier.hand_to_user Reason.dispatch_exhausted false
    else respawned s

-- Cost stops every dispatch, before a steer turns into one.
abbrev decide_tier : UrgencyTier → Situation → EscalationDecision
decide_tier tier s =
    if s.lease_alive
    then decision (min_tier tier UrgencyTier.remind)
        (Reason.lease_alive tier (min_tier tier UrgencyTier.remind)) false
    else elim (exhausted_cost s.budget_cost_left) [
      | some cost ↦ decision UrgencyTier.hand_to_user (Reason.cost_exhausted cost) false
      | none ↦ without_lease tier s
    ]

unfoldable pub decide : Option UrgencyTier → Situation → EscalationDecision
decide none s = record {
  tier = none;
  reason = Reason.past_deadline;
  consumes_dispatch = false;
  consumes_escalation = false;
}
decide (some tier) s = decide_tier tier s
