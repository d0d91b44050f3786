-- ===== src/Promoter/Escalation/Laws.antt =====
-- When the ladder dispatches (src/lhgp/promoter/escalation.py).
use lhgp.Prelude.{
  ◌≡◌, ◌≢◌, ◌↔◌, refl, true, false, not, ◌&&◌, ◌||◌, Option, none, some, ◌==◌, arith, is_some,
}
use lhgp.Promoter.Urgency.{UrgencyTier, tier_eq}
use lhgp.Promoter.Escalation.{Situation, is_positive, exhausted_cost, decide}

-- A new attempt is dispatched exactly where the tier is `steer` or above, no lease is alive, the cost
-- budget, if there is one, is not exhausted, and a dispatch is left; and a decision is a respawn
-- exactly where it dispatches.
pub decide_dispatches :
    (tier : UrgencyTier) (s : Situation)
    → ((decide (some tier) s).consumes_dispatch ≡ (
        not (tier == UrgencyTier.queued || tier == UrgencyTier.remind)
        && (not s.lease_alive
            && (not (is_some (exhausted_cost s.budget_cost_left))
                && is_positive s.budget_dispatches_left))))
      × (((decide (some tier) s).tier ≡ some UrgencyTier.respawn)
          ↔ ((decide (some tier) s).consumes_dispatch ≡ true))
unfolding decide
decide_dispatches tier s = (ground arith, (λ h. ground arith, λ h. ground arith))

-- No decision draws on the budget of escalations, and none is the parallel tier.
pub decide_never_parallel :
    (tier : Option UrgencyTier) (s : Situation)
    → ((decide tier s).consumes_escalation ≡ false)
      × ((decide tier s).tier ≢ some UrgencyTier.parallel)
unfolding decide
decide_never_parallel none s = (refl, ground arith)
decide_never_parallel (some tier) s = (ground arith, ground arith)
