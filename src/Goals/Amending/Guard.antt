-- ===== src/Goals/Amending/Guard.antt =====
-- What advancing a goal has seen and done (src/longtask/persistence/store.py, `advance_goal`).
use mathlib.Core.Path.{subst}
use mathlib.Core.Option
use lhgp.Prelude.{
  ◌+◌, ◌≡◌, refl, sym, inl, inr, true, false, Option, none, some, ◌==◌, nat_eq, or_else, arith,
  Option-cases, Bool-cases,
}
use lhgp.Prelude.Tables.{find-update_self}
use lhgp.Contracts.Axes.{AcceptanceStatus, acceptance_eq}
use lhgp.Contracts.Policies.{Ident, Fields}
use lhgp.Store.Types.{Goal, Store, ContractView, Result-cases, ok}
use lhgp.Store.Events.{append_event}
use lhgp.Store.Contracts.{get_contract, revision_differs}
use lhgp.Goals.Progress.{Texts, normalize_plan, advance_progress}
use lhgp.Goals.Amending.{
  GoalPatch, Advance, is_goal, get_goal, set_plan, write_plan, amend, patch_goal, progress_patch,
  bound_contract, bound_passes, advance_goal,
}

get_goal-write_plan :
    (c : GoalPatch) (current : Goal) (plan : Fields) (s : Store)
    → get_goal c.goal_id (write_plan c current plan s)
      ≡ Option.map (set_plan c current plan) (get_goal c.goal_id s)
unfolding get_goal write_plan append_event
get_goal-write_plan c current plan s =
    find-update_self (is_goal c.goal_id) (set_plan c current plan) s.goals (λ x h. h)

-- What a patch of a goal has seen and done when it returns.
pub record Amended (t : Texts) (c : GoalPatch) (s : Store) (row : Goal) (u : Store) : Type 0 where
  pub current : Goal
  pub found : get_goal c.goal_id s ≡ some current
  pub expected : revision_differs c.expected_revision current.revision ≡ false
  pub plan : Fields
  pub normal : normalize_plan t (or_else c.plan current.plan) ≡ ok plan
  pub returned : row ≡ set_plan c current plan current
  pub written : u ≡ write_plan c current plan s

amend-Amended :
    (t : Texts) (c : GoalPatch) (s u : Store) (row current : Goal)
    → get_goal c.goal_id s ≡ some current
    → revision_differs c.expected_revision current.revision ≡ false
    → amend c current (normalize_plan t (or_else c.plan current.plan)) s ≡ ok (row, u)
    → Amended t c s row u
amend-Amended t c s u row current found expected done =
    elim (Result-cases (normalize_plan t (or_else c.plan current.plan))) [
      | inl (e, bad) ↦ absurd (ground arith)
      | inr (plan, good) ↦
          let back : get_goal c.goal_id (write_plan c current plan s)
              ≡ some (set_plan c current plan current) =
            ground (arith, get_goal-write_plan c current plan s) in
          let run : amend c current (ok plan) s ≡ ok (row, u) = rw good at done in
          record {
            current = current;
            found = found;
            expected = expected;
            plan = plan;
            normal = good;
            returned = ground arith;
            written = ground arith;
          }
    ]

pub patch_goal-Amended :
    (t : Texts) (c : GoalPatch) (s u : Store) (row : Goal)
    → patch_goal t c s ≡ ok (row, u)
    → Amended t c s row u
unfolding patch_goal
patch_goal-Amended t c s u row done = elim (Option-cases (get_goal c.goal_id s)) [
  | inl missing ↦ absurd (ground arith)
  | inr (current, found) ↦
      elim (Bool-cases (revision_differs c.expected_revision current.revision)) [
        | inl differs ↦ absurd (ground arith)
        | inr same ↦ amend-Amended t c s u row current found same (ground arith)
      ]
]

-- The stage's contract, if the stage is bound to one, belongs to the goal and has passed.
abbrev pub IsEarned : Ident → Option Ident → Store → Type 0
IsEarned goal_id none s = Unit
IsEarned goal_id (some contract_id) s =
    (row : ContractView) × (get_contract contract_id s ≡ some row)
    × (row.goal_id ≡ goal_id)
    × (row.acceptance_status ≡ AcceptanceStatus.passed)

earned :
    (goal_id : Ident) (o : Option Ident) (s : Store)
    → bound_passes goal_id o s ≡ true
    → IsEarned goal_id o s
earned goal_id none s h = tt
earned goal_id (some k) s h = elim (Option-cases (get_contract k s)) [
  | inl missing ↦ absurd (ground arith)
  | inr (row, here) ↦ elim (Bool-cases (row.goal_id == goal_id)) [
    | inl same ↦ (
      row,
      here,
      ground arith,
      (acceptance_eq.equal_iff row.acceptance_status AcceptanceStatus.passed).0 (ground arith),
    )
    | inr other ↦ absurd (ground arith)
  ]
]

-- What an advance has seen and done when it returns.
pub record Advanced (t : Texts) (c : Advance) (s : Store) (row : Goal) : Type 0 where
  pub current : Goal
  pub found : get_goal c.goal_id s ≡ some current
  pub expected : current.revision ≡ c.expected_revision
  pub earned : IsEarned c.goal_id (bound_contract t current.plan c.complete_stage) s
  pub moved : advance_progress t current.plan current.progress c.complete_stage ≡ ok row.progress
  pub revision : row.revision ≡ current.revision + 1

patched-Advanced :
    (t : Texts) (c : Advance) (s u : Store) (row current : Goal) (progress : Fields)
    → get_goal c.goal_id s ≡ some current
    → IsEarned c.goal_id (bound_contract t current.plan c.complete_stage) s
    → advance_progress t current.plan current.progress c.complete_stage ≡ ok progress
    → Amended t (progress_patch c progress) s row u
    → Advanced t c s row
patched-Advanced t c s u row current progress found by moved a =
    let same : a.current ≡ current = cc (a.found, found) in
    let e : current.revision ≡ c.expected_revision =
      subst (λ x. x.revision ≡ c.expected_revision) same (ground (arith, a.expected)) in
    record {
      current = current;
      found = found;
      expected = e;
      earned = by;
      moved = rw (a.returned) moved;
      revision =
          rw (a.returned) (subst (λ x. x.revision + 1 ≡ current.revision + 1) (sym same) refl);
    }

-- An advance that returns has found the goal at the expected revision; if the stage that it completes
-- is bound to a contract, that contract is there, belongs to the goal and has passed acceptance; the
-- goal that it answers with is one revision on, and its progress is what completing the stage gives.
pub advance_goal-Advanced :
    (t : Texts) (c : Advance) (s u : Store) (row : Goal)
    → advance_goal t c s ≡ ok (row, u)
    → Advanced t c s row
unfolding advance_goal
advance_goal-Advanced t c s u row done = elim (Option-cases (get_goal c.goal_id s)) [
  | inl missing ↦ absurd (ground arith)
  | inr (goal, found) ↦
      elim (Bool-cases (bound_passes c.goal_id (bound_contract t goal.plan c.complete_stage) s)) [
        | inr refused ↦ absurd (ground arith)
        | inl passes ↦
            elim (Result-cases (advance_progress t goal.plan goal.progress c.complete_stage)) [
              | inl (e, bad) ↦ absurd (ground arith)
              | inr (progress, moved) ↦
                  patched-Advanced t c s u row goal progress found
                    (earned c.goal_id (bound_contract t goal.plan c.complete_stage) s passes) moved
                    (patch_goal-Amended t (progress_patch c progress) s u row (ground arith))
            ]
      ]
]
