-- ===== src/Goals/Progress.antt =====
-- The progress of a goal through its plan (src/lhgp/goals/progress.py).
--
-- A plan and its progress are dictionaries of JSON. What iterating over a text gives, and the texts
-- that `str` makes of other values, are parameters.
use lhgp.Prelude.{
  Bool, true, false, Option, none, some, List, [], ◌∷◌, ◌++◌, ◌==◌, nat_eq, if◌then◌else◌, or_else,
  contains, not, map,
}
use lhgp.Contracts.Policies.{Ident, Json, Items, Fields}
use lhgp.Contracts.Dicts.{get, put, set_default}
use lhgp.Store.Types.{Result, ok, err, value_error}

-- `str(v)` of a value that is no text, `str.strip`, and the characters of a text.
pub record Texts : Type 0 where
  pub shown : Json → Ident
  pub strip : Ident → Ident
  pub letters : Ident → List Ident

abbrev pub stages_key : Ident
stages_key = 40

abbrev pub id_key : Ident
id_key = 41

abbrev pub title_key : Ident
title_key = 42

abbrev pub completed_key : Ident
completed_key = 43

abbrev pub current_key : Ident
current_key = 44

abbrev pub status_key : Ident
status_key = 45

abbrev pub satisfied : Ident
satisfied = 46

abbrev pub active : Ident
active = 47

-- `str(v)`
abbrev pub text_of : Texts → Json → Ident
text_of t (Json.text x) = x
text_of t v = t.shown v

-- A stage as it is given: a text stands for its id and its title.
abbrev pub raw_stage : Json → Option Fields
raw_stage (Json.text x) =
    some (Fields.field id_key (Json.text x) (Fields.field title_key (Json.text x) Fields.end))
raw_stage (Json.obj fs) = some fs
raw_stage _ = none

abbrev pub stage_id : Texts → Fields → Ident
stage_id t stage = t.strip (text_of t (or_else (get id_key stage) (Json.text 0)))

abbrev pub normal_stage : Ident → Fields → Fields
normal_stage id stage = set_default title_key (Json.text id) (put id_key (Json.text id) stage)

abbrev pub add_stage : Fields → Result (List Fields) → Result (List Fields)
add_stage stage (ok stages) = ok (stage ∷ stages)
add_stage stage (err e) = err e

-- The stages of a plan, each with an id that is not empty and that no stage before it has.
unfoldable pub normal_stages : Texts → Items → List Ident → Result (List Fields)
normal_stages t Items.nil seen = ok []
normal_stages t (Items.cons x xs) seen = elim (raw_stage x) [
  | none ↦ err value_error
  | some stage ↦
      let id = stage_id t stage in
      let rest = normal_stages t xs (id ∷ seen) in
      if id == 0
      then err value_error
      else if contains id seen
      then err value_error
      else add_stage (normal_stage id stage) rest
]

abbrev pub is_nil : Items → Bool
is_nil Items.nil = true
is_nil (Items.cons x xs) = false

abbrev pub items_of : List Json → Items
items_of [] = Items.nil
items_of (x ∷ xs) = Items.cons x (items_of xs)

abbrev pub with_stages : Fields → Result (List Fields) → Result Fields
with_stages plan (ok stages) = ok (put stages_key (Json.arr (items_of (map Json.obj stages))) plan)
with_stages plan (err e) = err e

abbrev pub stages_of : Texts → Option Json → Result (List Fields)
stages_of t (some (Json.arr xs)) = if is_nil xs then err value_error else normal_stages t xs []
stages_of t _ = err value_error

-- A plan whose `stages` are absent or null is taken as it is.
unfoldable pub normalize_plan : Texts → Fields → Result Fields
normalize_plan t plan = elim (get stages_key plan) [
  | none ↦ ok plan
  | some Json.null ↦ ok plan
  | some v ↦ with_stages plan (stages_of t (some v))
]

-- The ids of the stages of a plan that is normalized: it needs stages.
abbrev pub id_of : Texts → Json → Ident
id_of t (Json.obj stage) = text_of t (or_else (get id_key stage) Json.null)
id_of t _ = 0

abbrev pub map_items {ℓ} : {A : Type ℓ} → (Json → A) → Items → List A
map_items f Items.nil = []
map_items f (Items.cons x xs) = f x ∷ map_items f xs

abbrev pub ids_of : Texts → Option Json → Result (List Ident)
ids_of t (some (Json.arr xs)) = ok (map_items (id_of t) xs)
ids_of t _ = err value_error

abbrev pub stage_ids : Texts → Result Fields → Result (List Ident)
stage_ids t (ok plan) = ids_of t (get stages_key plan)
stage_ids t (err e) = err e

abbrev pub keys : Fields → List Ident
keys Fields.end = []
keys (Fields.field k v fs) = k ∷ keys fs

-- `[str(item) for item in progress.get("completed", [])]`; a number, a truth value or null is not
-- iterable, which raises.
abbrev pub completed_of : Texts → Option Json → Result (List Ident)
completed_of t none = ok []
completed_of t (some (Json.arr xs)) = ok (map_items (text_of t) xs)
completed_of t (some (Json.obj fs)) = ok (keys fs)
completed_of t (some (Json.text x)) = ok (t.letters x)
completed_of t (some _) = err value_error

-- The first stage that is not completed.
unfoldable pub next_stage : List Ident → List Ident → Option Ident
next_stage [] completed = none
next_stage (id ∷ ids) completed =
    if contains id completed then next_stage ids completed else some id

abbrev pub first_id : List Ident → Ident
first_id [] = 0
first_id (id ∷ ids) = id

abbrev pub current_of : Texts → List Ident → List Ident → Option Json → Ident
current_of t ids completed none = or_else (next_stage ids completed) (first_id ids)
current_of t ids completed (some Json.null) = or_else (next_stage ids completed) (first_id ids)
current_of t ids completed (some v) = text_of t v

abbrev pub next_value : Option Ident → Json
next_value none = Json.null
next_value (some id) = Json.text id

abbrev pub next_status : Option Ident → Ident
next_status none = satisfied
next_status (some id) = active

abbrev pub advanced : List Ident → List Ident → Fields → Fields
advanced ids completed progress =
    put status_key (Json.text (next_status (next_stage ids completed))) (
      put current_key (next_value (next_stage ids completed))
        (put completed_key (Json.arr (items_of (map Json.text completed))) progress))

abbrev pub with_stage : Ident → List Ident → List Ident
with_stage id completed = if contains id completed then completed else completed ++ id ∷ []

abbrev pub advance_ids : Texts → List Ident → Ident → Fields → Result Fields
advance_ids t ids complete_stage progress = elim (completed_of t (get completed_key progress)) [
  | err e ↦ err e
  | ok completed ↦
      if not (contains complete_stage ids)
      then err value_error
      else if not (current_of t ids completed (get current_key progress) == complete_stage)
      then err value_error
      else ok (advanced ids (with_stage complete_stage completed) progress)
]

unfoldable pub advance_progress : Texts → Fields → Fields → Ident → Result Fields
unfolding normalize_plan
advance_progress t plan progress complete_stage = elim (stage_ids t (normalize_plan t plan)) [
  | err e ↦ err e
  | ok ids ↦ advance_ids t ids complete_stage progress
]
