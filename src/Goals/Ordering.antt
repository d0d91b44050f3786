-- ===== src/Goals/Ordering.antt =====
-- In which order the stages of a plan can be completed (src/lhgp/goals/progress.py).
use lhgp.Prelude.{
  ◌≡◌, refl, inl, inr, none, some, List, [], ◌∷◌, ◌++◌, ◌==◌, nat_eq, if◌then◌else◌, contains,
  Bool-cases, arith, false,
}
use lhgp.Contracts.Policies.{Ident, Fields}
use lhgp.Contracts.Dicts.{get}
use lhgp.Store.Types.{ok, err, value_error}
use lhgp.Goals.Progress.{
  Texts, completed_key, current_key, stage_ids, next_stage, current_of, advanced, advance_ids,
  normalize_plan, advance_progress,
}
use lhgp.Goals.Stages.{normalize_plan-Distinct}
use lhgp.Goals.Completion.{IsAt, complete_all, complete_part, fresh-IsAt, advance_at, next_after}

refused_at :
    (t : Texts) (plan progress : Fields) (ids done : List Ident) (y z : Ident)
    → stage_ids t (normalize_plan t plan) ≡ ok ids
    → IsAt t ids done progress
    → next_stage ids done ≡ some y
    → (z == y) ≡ false
    → advance_progress t plan progress z ≡ err value_error
unfolding advance_progress
refused_at t plan progress ids done y z staged at next other =
    let current : (current_of t ids done (get current_key progress) == z) ≡ false =
      ground (arith, at.current, next) in
    elim (Bool-cases (contains z ids)) [
      | inl member ↦ rw (staged, advance_progress, advance_ids, at.completed, member, current) refl
      | inr missing ↦ rw (staged, advance_progress, advance_ids, at.completed, missing) refl
    ]

-- The stages of a plan can be completed in the order of the plan alone. From a progress that has none
-- completed and none current, completing the first stages of the plan, `done`, one after the other
-- returns, and then the stage `y` that follows them in the plan can be completed, while every other
-- text, be it a later stage, one that has been completed or no stage at all, is refused with a
-- ValueError.
pub complete_in_order :
    (t : Texts) (plan progress : Fields) (done rest : List Ident) (y z : Ident)
    → stage_ids t (normalize_plan t plan) ≡ ok (done ++ y ∷ rest)
    → get completed_key progress ≡ none
    → get current_key progress ≡ none
    → (r : Fields) × (complete_all t plan done progress ≡ ok r)
      × (advance_progress t plan r z ≡ (
          if z == y then ok (advanced (done ++ y ∷ rest) (done ++ y ∷ []) r) else err value_error))
complete_in_order t plan progress done rest y z staged fresh unset =
    let ids = done ++ y ∷ rest in
    let apart = normalize_plan-Distinct t plan ids staged in
    let start = fresh-IsAt t ids progress fresh unset in
    let (r, run, at) =
      complete_part t plan ids staged [] done (y ∷ rest) progress refl apart start in
    (
      r,
      run,
      elim (Bool-cases (z == y)) [
        | inl same ↦
            let k : z ≡ y = ground arith in
            rw (same, k) (advance_at t plan ids staged done y rest r refl apart at)
        | inr other ↦
            rw other
              (refused_at t plan r ids done y z staged at (next_after done y rest apart) other)
      ],
    )
