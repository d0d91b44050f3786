-- ===== src/Goals/Stages.antt =====
-- The stages of a normalized plan (src/lhgp/goals/progress.py, `normalize_plan`).
use lhgp.Prelude.{
  ◌≡◌, refl, false, Option, none, some, List, [], ◌∷◌, ◌==◌, nat_eq, contains, map, arith, inl, inr,
  Option-cases, All, All-map,
}
use lhgp.Contracts.Policies.{Ident, Json, Items, Fields}
use lhgp.Contracts.Dicts.{get, put, get-put, get-set_default}
use lhgp.Store.Types.{Result, Result-cases, ok, err}
use lhgp.Goals.Progress.{
  Texts, id_key, title_key, stages_key, normal_stages, normalize_plan, normal_stage, stage_id,
  raw_stage, with_stages, stages_of, stage_ids, id_of, map_items, items_of,
}

-- No id stands twice.
abbrev pub Distinct : List Ident → Type 0
Distinct [] = Unit
Distinct (id ∷ ids) = (contains id ids ≡ false) × Distinct ids

id-normal_stage :
    (t : Texts) (id : Ident) (stage : Fields) → id_of t (Json.obj (normal_stage id stage)) ≡ id
id-normal_stage t id stage = ground (
  arith,
  get-set_default id_key title_key (Json.text id) (put id_key (Json.text id) stage),
  get-put id_key id_key (Json.text id) stage,
)

-- The ids of stages that are in no list `seen`, and are distinct.
abbrev AreFresh : List Ident → List Ident → Type 0
AreFresh seen ids = All (λ id. contains id seen ≡ false) ids × Distinct ids

fresh_cons :
    (id : Ident) (seen ids : List Ident)
    → contains id seen ≡ false
    → AreFresh (id ∷ seen) ids
    → AreFresh seen (id ∷ ids)
fresh_cons id seen ids new (apart, distinct) = (
  (new, All-map ids (λ x h. ground arith) apart),
  (not_among id ids (All-map ids (λ x h. ground arith) apart), distinct),
)
  where
    not_among :
        (id : Ident) (ids : List Ident) → All (λ x. (x == id) ≡ false) ids → contains id ids ≡ false
    not_among id [] h = refl
    not_among id (x ∷ xs) h = ground (arith, not_among id xs)

abbrev stage_ids_of : Texts → List Fields → List Ident
stage_ids_of t stages = map_items (id_of t) (items_of (map Json.obj stages))

normal_stages-AreFresh :
    (t : Texts) (xs : Items) (seen : List Ident) (stages : List Fields)
    → normal_stages t xs seen ≡ ok stages
    → AreFresh seen (stage_ids_of t stages)
unfolding normal_stages
normal_stages-AreFresh t Items.nil seen [] done = (tt, tt)
normal_stages-AreFresh t Items.nil seen (s ∷ ss) done = absurd (cc done)
normal_stages-AreFresh t (Items.cons x xs) seen stages done = elim (Option-cases (raw_stage x)) [
  | inl bad ↦ absurd (ground arith)
  | inr (stage, good) ↦ elim (Result-cases (normal_stages t xs (stage_id t stage ∷ seen))) [
    | inl (e, bad) ↦ absurd (ground arith)
    | inr (rest, later) ↦
        let new : contains (stage_id t stage) seen ≡ false = ground arith in
        let same : normal_stage (stage_id t stage) stage ∷ rest ≡ stages = ground arith in
        rw (← same, id-normal_stage t (stage_id t stage) stage)
          (fresh_cons (stage_id t stage) seen (stage_ids_of t rest) new
            (normal_stages-AreFresh t xs (stage_id t stage ∷ seen) rest later))
  ]
]

with_stages-Distinct :
    (t : Texts) (plan : Fields) (r : Result (List Fields)) (ids : List Ident)
    → ((stages : List Fields) → r ≡ ok stages → Distinct (stage_ids_of t stages))
    → stage_ids t (with_stages plan r) ≡ ok ids
    → Distinct ids
with_stages-Distinct t plan (err e) ids h done = absurd (cc done)
with_stages-Distinct t plan (ok stages) ids h done =
    let there = get-put stages_key stages_key (Json.arr (items_of (map Json.obj stages))) plan in
    let same : stage_ids_of t stages ≡ ids = ground arith in rw (← same) (h stages refl)

stages_of-Distinct :
    (t : Texts) (o : Option Json) (stages : List Fields)
    → stages_of t o ≡ ok stages
    → Distinct (stage_ids_of t stages)
stages_of-Distinct t (some (Json.arr xs)) stages done =
    (normal_stages-AreFresh t xs [] stages (ground arith)).1
stages_of-Distinct t none stages done = absurd (cc done)
stages_of-Distinct t (some Json.null) stages done = absurd (cc done)
stages_of-Distinct t (some (Json.bool b)) stages done = absurd (cc done)
stages_of-Distinct t (some (Json.num n)) stages done = absurd (cc done)
stages_of-Distinct t (some (Json.text x)) stages done = absurd (cc done)
stages_of-Distinct t (some (Json.obj fs)) stages done = absurd (cc done)

-- The ids of the stages of a normalized plan are distinct.
pub normalize_plan-Distinct :
    (t : Texts) (plan : Fields) (ids : List Ident)
    → stage_ids t (normalize_plan t plan) ≡ ok ids
    → Distinct ids
unfolding normalize_plan
normalize_plan-Distinct t plan ids done = by_stages (get stages_key plan) refl
  where
    by_stages : (o : Option Json) → get stages_key plan ≡ o → Distinct ids
    by_stages none e = absurd (ground arith)
    by_stages (some Json.null) e = absurd (ground arith)
    by_stages (some (Json.bool b)) e = absurd (ground arith)
    by_stages (some (Json.num n)) e = absurd (ground arith)
    by_stages (some (Json.text x)) e = absurd (ground arith)
    by_stages (some (Json.obj fs)) e = absurd (ground arith)
    by_stages (some (Json.arr xs)) e =
        with_stages-Distinct t plan (stages_of t (some (Json.arr xs))) ids
          (stages_of-Distinct t (some (Json.arr xs))) (rw (e, normalize_plan) at done)
