-- ===== src/Goals/Completion.antt =====
-- A goal whose stages are completed in their order is satisfied (src/lhgp/goals/progress.py,
-- `advance_progress`).
use mathlib.Core.Path.{subst}
use lhgp.Prelude.{
  ◌≡◌, refl, true, false, Option, none, some, List, [], ◌∷◌, ◌++◌, ◌==◌, nat_eq, or_else, contains,
  map, arith, ==_refl, append_snoc, append_nil, All, All-map, sym, ◌⊎◌, inl, inr,
}
use lhgp.Contracts.Policies.{Ident, Json, Fields}
use lhgp.Contracts.Dicts.{get, put, get-put}
use lhgp.Store.Types.{Result, ok, err}
use lhgp.Goals.Progress.{
  Texts, completed_key, current_key, status_key, satisfied, normalize_plan, stage_ids, map_items,
  items_of, text_of, completed_of, next_stage, first_id, current_of, next_value, next_status,
  advanced, advance_ids, advance_progress,
}
use lhgp.Goals.Stages.{Distinct, normalize_plan-Distinct}

-- The progress has completed `done`, and the stage that it names as current is the next one.
pub record IsAt (t : Texts) (ids done : List Ident) (progress : Fields) : Type 0 where
  pub completed : completed_of t (get completed_key progress) ≡ ok done
  pub current :
      current_of t ids done (get current_key progress)
      ≡ or_else (next_stage ids done) (first_id ids)
  pub status :
      (done ≡ [])
      ⊎ ((get status_key progress ≡ some (Json.text (next_status (next_stage ids done))))
          × (get current_key progress ≡ some (next_value (next_stage ids done))))

texts_back :
    (t : Texts) (xs : List Ident) → map_items (text_of t) (items_of (map Json.text xs)) ≡ xs
texts_back t [] = refl
texts_back t (x ∷ xs) = rw (texts_back t xs) refl

module _ (t : Texts) (ids done : List Ident) (progress : Fields) where
  abbrev start : Fields
  start = put completed_key (Json.arr (items_of (map Json.text done))) progress

  completed_after :
      get completed_key (advanced ids done progress)
      ≡ some (Json.arr (items_of (map Json.text done)))
  completed_after = ground (
    arith,
    get-put completed_key status_key (Json.text (next_status (next_stage ids done)))
        (put current_key (next_value (next_stage ids done)) start),
    get-put completed_key current_key (next_value (next_stage ids done)) start,
    get-put completed_key completed_key (Json.arr (items_of (map Json.text done))) progress,
  )

  current_after :
      get current_key (advanced ids done progress) ≡ some (next_value (next_stage ids done))
  current_after = ground (
    arith,
    get-put current_key status_key (Json.text (next_status (next_stage ids done)))
        (put current_key (next_value (next_stage ids done)) start),
    get-put current_key current_key (next_value (next_stage ids done)) start,
  )

  status_after :
      get status_key (advanced ids done progress)
      ≡ some (Json.text (next_status (next_stage ids done)))
  status_after = ground (
    arith,
    get-put status_key status_key (Json.text (next_status (next_stage ids done)))
        (put current_key (next_value (next_stage ids done)) start),
  )

  current_value :
      (o : Option Ident)
      → next_stage ids done ≡ o
      → current_of t ids done (some (next_value o)) ≡ or_else o (first_id ids)
  current_value none e = rw e refl
  current_value (some x) e = refl

  advanced-IsAt : IsAt t ids done (advanced ids done progress)
  advanced-IsAt = record {
    completed = rw completed_after (rw (texts_back t done) refl);
    current = rw current_after (current_value (next_stage ids done) refl);
    status = inr (status_after, current_after);
  }

contains_self : (xs : List Ident) → All (λ x. contains x xs ≡ true) xs
contains_self [] = tt
contains_self (x ∷ xs) =
    (ground (arith, ==_refl x), All-map xs (λ y h. ground arith) (contains_self xs))

-- Stages that are completed are passed over.
next_stage-append :
    (c a b : List Ident) → All (λ x. contains x c ≡ true) a → next_stage (a ++ b) c ≡ next_stage b c
unfolding next_stage
next_stage-append c [] b h = refl
next_stage-append c (x ∷ a) b h = rw (h.0) (next_stage-append c a b h.1)

not_before :
    (a : List Ident) (x : Ident) (b : List Ident) → Distinct (a ++ x ∷ b) → contains x a ≡ false
not_before [] x b h = refl
not_before (y ∷ a) x b (apart, distinct) = ground (arith, not_before a x b distinct, among y a x b)
  where
    among :
        (y : Ident) (a : List Ident) (x : Ident) (b : List Ident)
        → contains y (a ++ x ∷ b) ≡ false
        → (y == x) ≡ false
    among y [] x b h = ground arith
    among y (z ∷ a) x b h = ground (arith, among y a x b)

pub next_after :
    (done : List Ident) (x : Ident) (todo : List Ident)
    → Distinct (done ++ x ∷ todo)
    → next_stage (done ++ x ∷ todo) done ≡ some x
unfolding next_stage
next_after done x todo h =
    rw (next_stage-append done done (x ∷ todo) (contains_self done))
      (rw (not_before done x todo h) refl)

none_left : (ids : List Ident) → next_stage ids ids ≡ none
unfolding next_stage
none_left ids =
    subst (λ xs. next_stage xs ids ≡ none) (append_nil ids)
      (next_stage-append ids ids [] (contains_self ids))

-- The stages are completed one after the other.
unfoldable pub complete_all : Texts → Fields → List Ident → Fields → Result Fields
unfolding advance_progress
complete_all t plan [] progress = ok progress
complete_all t plan (id ∷ ids) progress = elim (advance_progress t plan progress id) [
  | err e ↦ err e
  | ok next ↦ complete_all t plan ids next
]

contains_at : (a : List Ident) (x : Ident) (b : List Ident) → contains x (a ++ x ∷ b) ≡ true
contains_at [] x b = ground (arith, ==_refl x)
contains_at (y ∷ a) x b = ground (arith, contains_at a x b)

module _ (t : Texts) (plan : Fields) (ids : List Ident)
    (staged : stage_ids t (normalize_plan t plan) ≡ ok ids) where
  -- The stage that is current can be completed, and no other one can.
  pub advance_at :
      (done : List Ident) (x : Ident) (todo : List Ident) (progress : Fields)
      → ids ≡ done ++ x ∷ todo
      → Distinct ids
      → IsAt t ids done progress
      → advance_progress t plan progress x ≡ ok (advanced ids (done ++ x ∷ []) progress)
  unfolding advance_progress
  advance_at done x todo progress whole apart at =
      let apart_whole : Distinct (done ++ x ∷ todo) = rw whole at apart in
      let next : next_stage ids done ≡ some x = rw whole (next_after done x todo apart_whole) in
      let fresh = not_before done x todo apart_whole in
      let member : contains x ids ≡ true = rw whole (contains_at done x todo) in
      let current : current_of t ids done (get current_key progress) ≡ x =
        ground (arith, at.current, next) in
      rw (staged, advance_progress, advance_ids, at.completed, member, current, ==_refl x, fresh)
        refl

  -- The next stages of the plan, `todo`, can be completed one after the other.
  pub complete_part :
      (done todo rest : List Ident) (progress : Fields)
      → ids ≡ done ++ (todo ++ rest)
      → Distinct ids
      → IsAt t ids done progress
      → (r : Fields) × (complete_all t plan todo progress ≡ ok r) × IsAt t ids (done ++ todo) r
  unfolding complete_all
  complete_part done [] rest progress whole apart at =
      (progress, refl, subst (λ xs. IsAt t ids xs progress) (sym (append_nil done)) at)
  complete_part done (x ∷ todo) rest progress whole apart at =
      let step = advance_at done x (todo ++ rest) progress whole apart at in
      let now = advanced-IsAt t ids (done ++ x ∷ []) progress in
      let moved : ids ≡ (done ++ x ∷ []) ++ (todo ++ rest) =
        rw (append_snoc done x (todo ++ rest)) whole in
      let (r, run, last) =
        complete_part (done ++ x ∷ []) todo rest (advanced ids (done ++ x ∷ []) progress) moved
          apart now in
      (r, rw (step, complete_all) run, subst (λ xs. IsAt t ids xs r) (append_snoc done x todo) last)

-- A progress that has none completed and none current is at the beginning of the plan.
pub fresh-IsAt :
    (t : Texts) (ids : List Ident) (progress : Fields)
    → get completed_key progress ≡ none
    → get current_key progress ≡ none
    → IsAt t ids [] progress
fresh-IsAt t ids progress fresh unset = record {
  completed = rw fresh refl;
  current = rw unset refl;
  status = inl refl;
}

-- Completing the stages of a plan one after the other, from a progress that has none completed and none
-- current, never fails; at the end the goal is satisfied, no stage is current, and the completed
-- stages are those of the plan, in its order.
pub complete_all_satisfies :
    (t : Texts) (plan progress : Fields) (x : Ident) (ids : List Ident)
    → stage_ids t (normalize_plan t plan) ≡ ok (x ∷ ids)
    → get completed_key progress ≡ none
    → get current_key progress ≡ none
    → (r : Fields) × (complete_all t plan (x ∷ ids) progress ≡ ok r)
      × (get status_key r ≡ some (Json.text satisfied))
      × (get current_key r ≡ some Json.null)
      × (completed_of t (get completed_key r) ≡ ok (x ∷ ids))
complete_all_satisfies t plan progress x ids staged fresh unset =
    let apart = normalize_plan-Distinct t plan (x ∷ ids) staged in
    let (r, run, last) =
      complete_part t plan (x ∷ ids) staged [] (x ∷ ids) [] progress (sym (append_nil (x ∷ ids)))
        apart (fresh-IsAt t (x ∷ ids) progress fresh unset) in
    (
      r,
      run,
      ground (arith, last.status, none_left (x ∷ ids)),
      ground (arith, last.status, none_left (x ∷ ids)),
      last.completed,
    )
