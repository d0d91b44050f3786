-- ===== src/Store/EventType.antt =====
-- The vocabulary of events (src/lhgp/persistence/events.py).
use lhgp.Prelude.{ℕ, zero, suc, ◌≡◌, refl, List, [], ◌∷◌, Equality, nat_beq, index_beq_iff}

pub data EventType : Type 0 where
  goal_amended goal_proposed agent_message user_directive contract_prepared contract_approved
        contract_patched contract_paused contract_resumed contract_cancelled contract_expired
        contract_blocked contract_unblocked contract_completed contract_satisfied
        contract_arbitrated contract_revision attempt_admitted attempt_started attempt_succeeded
        attempt_failed attempt_cancelled attempt_stale attempt_orphaned attempt_write_back
        attempt_resumed deadline_status_changed acceptance_status_changed acceptance_calibrated
        decision_recorded lease_acquired lease_renewed lease_released lease_reclaimed lease_fenced
        lease_partition_conflict context_policy_approved context_snapshot_built
        context_snapshot_expired context_scratch_updated context_promotion_requested
        context_promotion_accepted context_promotion_rejected context_capacity_refused
        context_rebuilt handover_incomplete handover_due projection_rebuilt projection_dirty
        store_tampered escalation_reminded escalation_steered escalation_spawned
        escalation_parallelized escalation_handed_to_user verification_requested
        verification_consumed verification_started dispatch_refused dispatch_deferred
        handle_registered reconcile_reattached reconcile_collected reconcile_orphan_graced
        reconcile_fenced_redispatched checkpoint_built capsule_built forecast_updated
        next_decision_at_set notify_dispatched wakeup_sleep_guard wakeup_rtc_armed wakeup_rtc_fired
        wakeup_degraded user_evaluation_submitted acceptance_diff_computed deadline_level_escalated
        deadline_breach_locked portfolio_summary_viewed template_evolved memory_expired
        memory_auto_mined memory_auto_mine_failed memory_lesson_mined retry_attempted plan_submitted
        plan_approved plan_rejected directive_acknowledged :
      EventType

abbrev pub event_index : EventType → ℕ
event_index EventType.goal_amended = 0
event_index EventType.goal_proposed = 1
event_index EventType.agent_message = 2
event_index EventType.user_directive = 3
event_index EventType.contract_prepared = 4
event_index EventType.contract_approved = 5
event_index EventType.contract_patched = 6
event_index EventType.contract_paused = 7
event_index EventType.contract_resumed = 8
event_index EventType.contract_cancelled = 9
event_index EventType.contract_expired = 10
event_index EventType.contract_blocked = 11
event_index EventType.contract_unblocked = 12
event_index EventType.contract_completed = 13
event_index EventType.contract_satisfied = 14
event_index EventType.contract_arbitrated = 15
event_index EventType.contract_revision = 16
event_index EventType.attempt_admitted = 17
event_index EventType.attempt_started = 18
event_index EventType.attempt_succeeded = 19
event_index EventType.attempt_failed = 20
event_index EventType.attempt_cancelled = 21
event_index EventType.attempt_stale = 22
event_index EventType.attempt_orphaned = 23
event_index EventType.attempt_write_back = 24
event_index EventType.attempt_resumed = 25
event_index EventType.deadline_status_changed = 26
event_index EventType.acceptance_status_changed = 27
event_index EventType.acceptance_calibrated = 28
event_index EventType.decision_recorded = 29
event_index EventType.lease_acquired = 30
event_index EventType.lease_renewed = 31
event_index EventType.lease_released = 32
event_index EventType.lease_reclaimed = 33
event_index EventType.lease_fenced = 34
event_index EventType.lease_partition_conflict = 35
event_index EventType.context_policy_approved = 36
event_index EventType.context_snapshot_built = 37
event_index EventType.context_snapshot_expired = 38
event_index EventType.context_scratch_updated = 39
event_index EventType.context_promotion_requested = 40
event_index EventType.context_promotion_accepted = 41
event_index EventType.context_promotion_rejected = 42
event_index EventType.context_capacity_refused = 43
event_index EventType.context_rebuilt = 44
event_index EventType.handover_incomplete = 45
event_index EventType.handover_due = 46
event_index EventType.projection_rebuilt = 47
event_index EventType.projection_dirty = 48
event_index EventType.store_tampered = 49
event_index EventType.escalation_reminded = 50
event_index EventType.escalation_steered = 51
event_index EventType.escalation_spawned = 52
event_index EventType.escalation_parallelized = 53
event_index EventType.escalation_handed_to_user = 54
event_index EventType.verification_requested = 55
event_index EventType.verification_consumed = 56
event_index EventType.verification_started = 57
event_index EventType.dispatch_refused = 58
event_index EventType.dispatch_deferred = 59
event_index EventType.handle_registered = 60
event_index EventType.reconcile_reattached = 61
event_index EventType.reconcile_collected = 62
event_index EventType.reconcile_orphan_graced = 63
event_index EventType.reconcile_fenced_redispatched = 64
event_index EventType.checkpoint_built = 65
event_index EventType.capsule_built = 66
event_index EventType.forecast_updated = 67
event_index EventType.next_decision_at_set = 68
event_index EventType.notify_dispatched = 69
event_index EventType.wakeup_sleep_guard = 70
event_index EventType.wakeup_rtc_armed = 71
event_index EventType.wakeup_rtc_fired = 72
event_index EventType.wakeup_degraded = 73
event_index EventType.user_evaluation_submitted = 74
event_index EventType.acceptance_diff_computed = 75
event_index EventType.deadline_level_escalated = 76
event_index EventType.deadline_breach_locked = 77
event_index EventType.portfolio_summary_viewed = 78
event_index EventType.template_evolved = 79
event_index EventType.memory_expired = 80
event_index EventType.memory_auto_mined = 81
event_index EventType.memory_auto_mine_failed = 82
event_index EventType.memory_lesson_mined = 83
event_index EventType.retry_attempted = 84
event_index EventType.plan_submitted = 85
event_index EventType.plan_approved = 86
event_index EventType.plan_rejected = 87
event_index EventType.directive_acknowledged = 88

abbrev pub event_types : List EventType
event_types =
    EventType.goal_amended ∷ EventType.goal_proposed ∷ EventType.agent_message
    ∷ EventType.user_directive ∷ EventType.contract_prepared ∷ EventType.contract_approved
    ∷ EventType.contract_patched ∷ EventType.contract_paused ∷ EventType.contract_resumed
    ∷ EventType.contract_cancelled ∷ EventType.contract_expired ∷ EventType.contract_blocked
    ∷ EventType.contract_unblocked ∷ EventType.contract_completed ∷ EventType.contract_satisfied
    ∷ EventType.contract_arbitrated ∷ EventType.contract_revision ∷ EventType.attempt_admitted
    ∷ EventType.attempt_started ∷ EventType.attempt_succeeded ∷ EventType.attempt_failed
    ∷ EventType.attempt_cancelled ∷ EventType.attempt_stale ∷ EventType.attempt_orphaned
    ∷ EventType.attempt_write_back ∷ EventType.attempt_resumed ∷ EventType.deadline_status_changed
    ∷ EventType.acceptance_status_changed ∷ EventType.acceptance_calibrated
    ∷ EventType.decision_recorded ∷ EventType.lease_acquired ∷ EventType.lease_renewed
    ∷ EventType.lease_released ∷ EventType.lease_reclaimed ∷ EventType.lease_fenced
    ∷ EventType.lease_partition_conflict ∷ EventType.context_policy_approved
    ∷ EventType.context_snapshot_built ∷ EventType.context_snapshot_expired
    ∷ EventType.context_scratch_updated ∷ EventType.context_promotion_requested
    ∷ EventType.context_promotion_accepted ∷ EventType.context_promotion_rejected
    ∷ EventType.context_capacity_refused ∷ EventType.context_rebuilt ∷ EventType.handover_incomplete
    ∷ EventType.handover_due ∷ EventType.projection_rebuilt ∷ EventType.projection_dirty
    ∷ EventType.store_tampered ∷ EventType.escalation_reminded ∷ EventType.escalation_steered
    ∷ EventType.escalation_spawned ∷ EventType.escalation_parallelized
    ∷ EventType.escalation_handed_to_user ∷ EventType.verification_requested
    ∷ EventType.verification_consumed ∷ EventType.verification_started ∷ EventType.dispatch_refused
    ∷ EventType.dispatch_deferred ∷ EventType.handle_registered ∷ EventType.reconcile_reattached
    ∷ EventType.reconcile_collected ∷ EventType.reconcile_orphan_graced
    ∷ EventType.reconcile_fenced_redispatched ∷ EventType.checkpoint_built ∷ EventType.capsule_built
    ∷ EventType.forecast_updated ∷ EventType.next_decision_at_set ∷ EventType.notify_dispatched
    ∷ EventType.wakeup_sleep_guard ∷ EventType.wakeup_rtc_armed ∷ EventType.wakeup_rtc_fired
    ∷ EventType.wakeup_degraded ∷ EventType.user_evaluation_submitted
    ∷ EventType.acceptance_diff_computed ∷ EventType.deadline_level_escalated
    ∷ EventType.deadline_breach_locked ∷ EventType.portfolio_summary_viewed
    ∷ EventType.template_evolved ∷ EventType.memory_expired ∷ EventType.memory_auto_mined
    ∷ EventType.memory_auto_mine_failed ∷ EventType.memory_lesson_mined ∷ EventType.retry_attempted
    ∷ EventType.plan_submitted ∷ EventType.plan_approved ∷ EventType.plan_rejected
    ∷ EventType.directive_acknowledged ∷ []

abbrev pub nth_event : List EventType → ℕ → EventType
nth_event [] n = EventType.goal_amended
nth_event (x ∷ xs) zero = x
nth_event (x ∷ xs) (suc n) = nth_event xs n

abbrev pub event_of_index : ℕ → EventType
event_of_index = nth_event event_types

pub event_of_index-index : (a : EventType) → event_of_index (event_index a) ≡ a
event_of_index-index EventType.goal_amended = refl
event_of_index-index _ = refl

instance abbrev pub event_eq : Equality EventType
event_eq = record {
  equal = λ a b. nat_beq (event_index a) (event_index b);
  equal_iff = index_beq_iff event_index event_of_index event_of_index-index;
}
