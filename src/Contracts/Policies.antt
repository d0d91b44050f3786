-- ===== src/Contracts/Policies.antt =====
-- The policy values of a contract draft (src/lhgp/contracts/budget.py, continuity.py, authority.py,
-- auto_approve.py, attention.py, acceptance.py, contract_draft.py).
--
-- Texts that the program only compares are numbers, one for each text, and 0 is the empty text.
-- Instants and spans are counts of microseconds. A value of JSON that the program only stores is a
-- `Json`.
use lhgp.Prelude.{ℕ, Bool, Option, List}

abbrev pub Ident : Type 0
Ident = ℕ

-- The text `user`.
abbrev pub user : Ident
user = 1

abbrev pub Instant : Type 0
Instant = ℕ

abbrev pub Span : Type 0
Span = ℕ

mutual
  pub data Json : Type 0 where
    null : Json
    bool : Bool → Json
    num : ℕ → Json
    text : Ident → Json
    arr : Items → Json
    obj : Fields → Json

  pub data Items : Type 0 where
    nil : Items
    cons : Json → Items → Items

  pub data Fields : Type 0 where
    end : Fields
    field : Ident → Json → Fields → Fields

-- `max_cost` is an amount of money in a fixed small unit.
pub record Budget : Type 0 where
  pub max_dispatches : ℕ
  pub max_escalations : ℕ
  pub max_concurrent_attempts : ℕ
  pub max_attempt_minutes : ℕ
  pub max_output_bytes : ℕ
  pub verification_attempts_reserved : ℕ
  pub max_cost : Option ℕ

pub record Continuity : Type 0 where
  pub checkpoint_max_age_minutes : ℕ
  pub checkpoint_on_material_change : Bool
  pub recovery_grace_minutes : ℕ
  pub capsule_max_tokens : ℕ

pub record AuthorityBinding : Type 0 where
  pub executor_id : Ident
  pub models : List Ident
  pub roles : List Ident

pub record Authority : Type 0 where
  pub executor_policy : Ident
  pub executors : List AuthorityBinding
  pub required_capabilities : List Ident
  pub allowed_controls : List Ident
  pub allow_parallel : Bool

pub record AutoApprove : Type 0 where
  pub enabled : Bool
  pub actions : List Ident
  pub max_budget_increment : ℕ
  pub max_spec_changes : ℕ

pub data NotifyKind : Type 0 where
  need_user risk_red satisfied missed : NotifyKind

pub record QuietHours : Type 0 where
  pub start : List ℕ
  pub end_at : List ℕ
  pub timezone : Ident

pub record Attention : Type 0 where
  pub notify_on : List NotifyKind
  pub quiet_hours : Option QuietHours
  pub bypass_quiet_hours_on : List NotifyKind

pub record Acceptance : Type 0 where
  pub standard : Ident
  pub checks : List Json
  pub verifier : Ident
  pub spec : Option Json
  pub spec_hash : Option Ident

pub record ContractDraft : Type 0 where
  pub title : Ident
  pub objective : Ident
  pub deadline_at : Instant
  pub hard_constraints : Json
  pub acceptance : Acceptance
  pub workload_initial_hours : ℕ
  pub budget : Budget
  pub authority : Authority
  pub attention : Attention
  pub continuity : Continuity
  pub auto_approve : AutoApprove
  pub soft_guidance : Json
  pub context : Json
  pub execution : Json
  pub client_meta : Json
