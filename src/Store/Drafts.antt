-- ===== src/Store/Drafts.antt =====
-- When two drafts are the same (src/lhgp/contracts/contract_draft.py, `to_dict`, by which
-- `save_contract` compares them).
use lhgp.Prelude.{Bool, ◌==◌, nat_eq, ◌&&◌, nat_beq, bool_beq, option_eq, list_beq}
use lhgp.Contracts.Policies.{
  Budget, Continuity, AuthorityBinding, Authority, AutoApprove, QuietHours, Attention, Acceptance,
  ContractDraft,
}
use lhgp.Store.Quiet.{Platform, notify_eq}

abbrev same_binding : AuthorityBinding → AuthorityBinding → Bool
same_binding a b =
    a.executor_id == b.executor_id
    && (list_beq nat_beq a.models b.models && list_beq nat_beq a.roles b.roles)

abbrev same_authority : Authority → Authority → Bool
same_authority a b =
    a.executor_policy == b.executor_policy
    && (list_beq same_binding a.executors b.executors
        && (list_beq nat_beq a.required_capabilities b.required_capabilities
            && (list_beq nat_beq a.allowed_controls b.allowed_controls
                && bool_beq a.allow_parallel b.allow_parallel)))

abbrev same_quiet_hours : QuietHours → QuietHours → Bool
same_quiet_hours a b =
    list_beq nat_beq a.start b.start
    && (list_beq nat_beq a.end_at b.end_at && a.timezone == b.timezone)

abbrev same_attention : Attention → Attention → Bool
same_attention a b =
    list_beq (λ x y. x == y) a.notify_on b.notify_on
    && (option_eq same_quiet_hours a.quiet_hours b.quiet_hours
        && list_beq (λ x y. x == y) a.bypass_quiet_hours_on b.bypass_quiet_hours_on)

abbrev same_budget : Budget → Budget → Bool
same_budget a b =
    a.max_dispatches == b.max_dispatches
    && (a.max_escalations == b.max_escalations
        && (a.max_concurrent_attempts == b.max_concurrent_attempts
            && (a.max_attempt_minutes == b.max_attempt_minutes
                && (a.max_output_bytes == b.max_output_bytes
                    && (a.verification_attempts_reserved == b.verification_attempts_reserved
                        && option_eq nat_beq a.max_cost b.max_cost)))))

abbrev same_continuity : Continuity → Continuity → Bool
same_continuity a b =
    a.checkpoint_max_age_minutes == b.checkpoint_max_age_minutes
    && (bool_beq a.checkpoint_on_material_change b.checkpoint_on_material_change
        && (a.recovery_grace_minutes == b.recovery_grace_minutes
            && a.capsule_max_tokens == b.capsule_max_tokens))

abbrev same_auto_approve : AutoApprove → AutoApprove → Bool
same_auto_approve a b =
    bool_beq a.enabled b.enabled
    && (list_beq nat_beq a.actions b.actions
        && (a.max_budget_increment == b.max_budget_increment
            && a.max_spec_changes == b.max_spec_changes))

abbrev same_acceptance : Platform → Acceptance → Acceptance → Bool
same_acceptance platform a b =
    a.standard == b.standard
    && (list_beq platform.json_equal a.checks b.checks
        && (a.verifier == b.verifier
            && (option_eq platform.json_equal a.spec b.spec
                && option_eq nat_beq a.spec_hash b.spec_hash)))

unfoldable pub same_draft : Platform → ContractDraft → ContractDraft → Bool
same_draft platform a b =
    a.title == b.title
    && (a.objective == b.objective
        && (a.deadline_at == b.deadline_at
            && (platform.json_equal a.hard_constraints b.hard_constraints
                && (same_acceptance platform a.acceptance b.acceptance
                    && (a.workload_initial_hours == b.workload_initial_hours
                        && (same_budget a.budget b.budget
                            && (same_authority a.authority b.authority
                                && (same_attention a.attention b.attention
                                    && (same_continuity a.continuity b.continuity
                                        && (same_auto_approve a.auto_approve b.auto_approve
                                            && (platform.json_equal a.soft_guidance b.soft_guidance
                                                && (platform.json_equal a.context b.context
                                                    && (platform.json_equal a.execution b.execution
                                                        && platform.json_equal a.client_meta
                                                            b.client_meta)))))))))))))
