-- ===== src/Goals/Authorizing/Authority.antt =====
-- On whose authority a draft becomes active (src/longtask/persistence/store.py,
-- `auto_approve_drafted_contract`).
use lhgp.Prelude.{
  ◌≤◌, ◌+◌, All, leb, ◌≡◌, ◌≢◌, ◌⊎◌, inl, inr, true, false, some, List, ◌==◌, nat_eq, is_some,
  arith, Option-cases, Bool-cases, refl,
}
use lhgp.Contracts.Axes.{ContractState, state_eq}
use lhgp.Contracts.Policies.{Ident, Instant, Fields}
use lhgp.Contracts.Dicts.{get, as_true}
use lhgp.Contracts.Exchange.Keys.{enabled_key}
use lhgp.Store.EventType.{EventType, event_eq}
use lhgp.Store.Types.{StoredEvent, Goal, Store, ContractView, Error, Result-cases, ok, err}
use lhgp.Store.Quiet.{Platform}
use lhgp.Store.Contracts.{get_contract, update_contract_state, changed}
use lhgp.Store.Contracts.Update.{update_contract_state-Updated}
use lhgp.Goals.Progress.{Texts}
use lhgp.Goals.Amending.{get_goal}
use lhgp.Goals.Authorizing.Newest.{newest-holds, newest-latest}
use lhgp.Goals.Authorizing.{
  lookback, pre_authorized_key, as_grant, granted_actions, is_wildcard, is_subset, is_listed,
  claimed_actions, newest, is_verdict, verdict_approves, unknown_or_covers, grant_as_of,
  has_recent_plan_approval_for_goal, grant_clears, goal_pre_authorizes_contract, approval_of,
  best_effort, auto_approve_drafted_contract,
}

-- A verdict on the contract's plans that is at most two hours old approves, no verdict of that time is
-- later, and what the user had granted when it was given, if it is known, is still granted.
pub record IsSigned (t : Texts) (contract : ContractView) (now : Instant) (grant : Fields)
    (s : Store) : Type 0 where
  pub verdict : StoredEvent
  pub found : newest (is_verdict contract.contract_id now) s.events ≡ some verdict
  pub on_contract : verdict.contract_id ≡ some contract.contract_id
  pub approves : verdict.event_type ≡ EventType.plan_approved
  pub recent : now ≤ verdict.created_at + lookback
  pub latest :
      All
        (λ e.
          is_verdict contract.contract_id now e ≡ true → leb e.created_at verdict.created_at ≡ true)
        s.events
  pub covered : unknown_or_covers t (grant_as_of contract.goal_id verdict.created_at s) grant ≡ true

-- Where the contract's claim is enabled, all the actions that it claims are granted, and it claims one
-- at least, unless the user has granted everything. Where the claim is not enabled, the user has
-- granted everything, or a plan of the contract has been signed under a grant of some actions.
abbrev pub IsCovered : Texts → ContractView → Instant → Fields → List Ident → Store → Type 0
IsCovered t contract now grant granted s =
    ((contract.draft.auto_approve.enabled ≡ true)
      × (is_subset (claimed_actions contract.draft.auto_approve) granted ≡ true)
      × ((is_listed (claimed_actions contract.draft.auto_approve) ≡ true)
          ⊎ (is_wildcard grant ≡ true)))
    ⊎ ((contract.draft.auto_approve.enabled ≡ false)
        × ((is_wildcard grant ≡ true)
            ⊎ ((is_listed granted ≡ true) × IsSigned t contract now grant s)))

-- The contract names a goal, the goal is there, and its plan holds a grant of the user that is enabled and covers the
-- contract.
pub record IsAuthorized (t : Texts) (contract : ContractView) (now : Instant) (s : Store)
    : Type 0 where
  pub named : (contract.goal_id == 0) ≡ false
  pub goal : Goal
  pub found : get_goal contract.goal_id s ≡ some goal
  pub grant : Fields
  pub granted_by : as_grant (get pre_authorized_key goal.plan) ≡ some grant
  pub enabled : is_some (as_true (get enabled_key grant)) ≡ true
  pub actions : List Ident
  pub listed : granted_actions t grant ≡ some actions
  pub covered : IsCovered t contract now grant actions s

signed :
    (t : Texts) (contract : ContractView) (now : Instant) (grant : Fields) (granted : List Ident)
    (s : Store)
    → has_recent_plan_approval_for_goal t contract.contract_id granted now contract.goal_id grant s
      ≡ true
    → (is_listed granted ≡ true) × IsSigned t contract now grant s
unfolding has_recent_plan_approval_for_goal
signed t contract now grant granted s h =
    elim (Option-cases (newest (is_verdict contract.contract_id now) s.events)) [
      | inl missing ↦ absurd (ground arith)
      | inr (e, there) ↦
          let approves : verdict_approves t contract.goal_id grant (some e) s ≡ true =
            ground arith in
          let kind = is_verdict contract.contract_id now in
          let own : kind e ≡ true = newest-holds kind s.events e there in
          (
            ground arith,
            record {
              verdict = e;
              found = there;
              on_contract = ground arith;
              approves = (event_eq.equal_iff e.event_type EventType.plan_approved).0 (ground arith);
              recent = ground arith;
              latest = newest-latest kind s.events e there;
              covered = ground arith;
            },
          )
    ]

covered :
    (t : Texts) (contract : ContractView) (now : Instant) (grant : Fields) (granted : List Ident)
    (s : Store)
    → grant_clears t contract now true grant granted s ≡ true
    → IsCovered t contract now grant granted s
unfolding grant_clears
covered t contract now grant granted s h = elim (Bool-cases contract.draft.auto_approve.enabled) [
  | inl claims ↦ inl (
    claims,
    ground arith,
    elim (Bool-cases (is_listed (claimed_actions contract.draft.auto_approve))) [
      | inl some_claimed ↦ inl some_claimed
      | inr none_claimed ↦ inr (ground arith)
    ],
  )
  | inr silent ↦ elim (Bool-cases (is_wildcard grant)) [
    | inl all_granted ↦ inr (silent, inl all_granted)
    | inr bounded ↦ inr (silent, inr (signed t contract now grant granted s (ground arith)))
  ]
]

goal_pre_authorizes_contract-IsAuthorized :
    (t : Texts) (contract : ContractView) (now : Instant) (s : Store)
    → goal_pre_authorizes_contract t contract now true s ≡ true
    → IsAuthorized t contract now s
unfolding goal_pre_authorizes_contract
goal_pre_authorizes_contract-IsAuthorized t contract now s h =
    elim (Option-cases (get_goal contract.goal_id s)) [
      | inl missing ↦ absurd (ground arith)
      | inr (goal, found) ↦ elim (Option-cases (as_grant (get pre_authorized_key goal.plan))) [
        | inl none_given ↦ absurd (ground arith)
        | inr (grant, given) ↦ elim (Option-cases (granted_actions t grant)) [
          | inl malformed ↦ absurd (ground arith)
          | inr (granted, listed) ↦ record {
            named = ground arith;
            goal = goal;
            found = found;
            grant = grant;
            granted_by = given;
            enabled = ground arith;
            actions = granted;
            listed = listed;
            covered = covered t contract now grant granted s (ground arith);
          }
        ]
      ]
    ]

not_approved : (e : Error) (s u : Store) → best_effort (err e) s ≢ ok (true, u)
not_approved e s u = ground arith

-- The row in the store is at the revision that the contract was read at.
abbrev pub IsCurrent : ContractView → Store → Type 0
IsCurrent contract s =
    (current : ContractView) × (get_contract contract.contract_id s ≡ some current)
    × (current.revision ≡ contract.revision)

at_revision :
    (p : Platform) (contract row : ContractView) (now : Instant) (s u : Store)
    → update_contract_state p (approval_of contract now) s ≡ ok (row, u)
    → IsCurrent contract s
at_revision p contract row now s u done =
    let w = update_contract_state-Updated p (approval_of contract now) s u row refl done in
    (w.current, w.found, ground (arith, w.expected))

made_active :
    (p : Platform) (contract row : ContractView) (now : Instant) (s u : Store)
    → update_contract_state p (approval_of contract now) s ≡ ok (row, u)
    → row.state ≡ ContractState.active
unfolding changed
made_active p contract row now s u done =
    let w = update_contract_state-Updated p (approval_of contract now) s u row refl done in
    rw (w.returned) refl

-- A draft that is approved without the user was a draft; it names a goal that is there, and the plan
-- of the goal holds a grant of the user that is enabled and covers the contract. Where the contract's
-- claim is enabled, this means that all the actions that it claims are granted, and that it claims one
-- at least or everything is granted. Where the claim is not enabled, it means that everything is
-- granted, or that the newest verdict on the contract's plans in the last two hours approves, under a
-- grant of that time which, if it is known, the present grant still covers. The row in the store was
-- then at the revision that was read, and is active after the change of state.
pub auto_approve_drafted_contract-IsAuthorized :
    (p : Platform) (t : Texts) (contract : ContractView) (now : Instant) (s u : Store)
    → auto_approve_drafted_contract p t contract now s ≡ ok (true, u)
    → (contract.state ≡ ContractState.drafted)
      × IsAuthorized t contract now s
      × IsCurrent contract s
      × ((row : ContractView) × (update_contract_state p (approval_of contract now) s ≡ ok (row, u))
          × (row.state ≡ ContractState.active))
unfolding auto_approve_drafted_contract
auto_approve_drafted_contract-IsAuthorized p t contract now s u done =
    elim (Bool-cases (contract.state == ContractState.drafted)) [
      | inr other ↦ absurd (ground arith)
      | inl draft ↦ elim (Bool-cases (goal_pre_authorizes_contract t contract now true s)) [
        | inr refused ↦ absurd (ground arith)
        | inl cleared ↦ elim (Result-cases (update_contract_state p (approval_of contract now) s)) [
          | inl (e, bad) ↦ absurd (not_approved e s u (ground arith))
          | inr ((row, v), good) ↦
              let same : update_contract_state p (approval_of contract now) s ≡ ok (row, u) =
                ground arith in
              (
                (state_eq.equal_iff contract.state ContractState.drafted).0 draft,
                goal_pre_authorizes_contract-IsAuthorized t contract now s cleared,
                at_revision p contract row now s u same,
                (row, same, made_active p contract row now s u same),
              )
        ]
      ]
    ]
