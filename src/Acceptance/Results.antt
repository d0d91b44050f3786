-- ===== src/Acceptance/Results.antt =====
-- The outcomes of a contract run (src/longtask/cli/tick.py, `_extract_verifier_check_results`).
use lhgp.Prelude.{
  ◌≡◌, refl, Option, none, some, [], ◌∷◌, ◌++◌, ◌==◌, nat_eq, if◌then◌else◌, arith, inl, inr,
  Bool-cases, Option-cases,
}
use lhgp.Prelude.Tables.{first_of_two}
use lhgp.Contracts.Policies.{Ident, Json, Items, Fields}
use lhgp.Acceptance.Spec.{Outcomes, outcome_of}
use lhgp.Contracts.Dicts.{get}

abbrev pub checks_key : Ident
checks_key = 30

abbrev pub evidence_key : Ident
evidence_key = 31

abbrev pub model_verdict_key : Ident
model_verdict_key = 32

abbrev pub check_id_key : Ident
check_id_key = 33

abbrev pub outcome_key : Ident
outcome_key = 34

-- `out[key] = value`; a key that is there keeps its place.
unfoldable pub put_outcome : Ident → Ident → Outcomes → Outcomes
put_outcome key value [] = (key, value) ∷ []
put_outcome key value ((k, v) ∷ os) =
    if k == key then (k, value) ∷ os else (k, v) ∷ put_outcome key value os

-- `out.setdefault(key, value)`
unfoldable pub put_default : Ident → Ident → Outcomes → Outcomes
unfolding outcome_of
put_default key value os = elim (outcome_of key os) [ some _ ↦ os | none ↦ os ++ (key, value) ∷ [] ]

-- The first shape: a dictionary from check to outcome.
unfoldable pub from_dictionary : Fields → Outcomes → Outcomes
unfolding put_outcome
from_dictionary Fields.end out = out
from_dictionary (Fields.field k (Json.text o) fs) out = from_dictionary fs (put_outcome k o out)
from_dictionary (Fields.field k _ fs) out = from_dictionary fs out

abbrev pub entry_of : Option Json → Option Json → Option (Ident × Ident)
entry_of (some (Json.text c)) (some (Json.text o)) = some (c, o)
entry_of _ _ = none

-- The check and the outcome that an entry of a list names.
abbrev pub entry : Json → Option (Ident × Ident)
entry (Json.obj fs) = entry_of (get check_id_key fs) (get outcome_key fs)
entry _ = none

abbrev pub put_entry : Option (Ident × Ident) → Outcomes → Outcomes
put_entry none out = out
put_entry (some (c, o)) out = put_default c o out

-- The second and the third shape: a list of entries.
unfoldable pub from_list : Items → Outcomes → Outcomes
unfolding put_default
from_list Items.nil out = out
from_list (Items.cons x xs) out = from_list xs (put_entry (entry x) out)

abbrev pub direct : Option Json → Outcomes → Outcomes
direct (some (Json.obj fs)) out = from_dictionary fs out
direct _ out = out

abbrev pub listed : Option Json → Outcomes → Outcomes
listed (some (Json.arr xs)) out = from_list xs out
listed _ out = out

abbrev pub checks_of_model : Option Json → Option Json
checks_of_model (some (Json.obj fs)) = get checks_key fs
checks_of_model _ = none

unfoldable pub extract_verifier_check_results : Fields → Outcomes
unfolding from_dictionary from_list
extract_verifier_check_results payload =
    listed (checks_of_model (get model_verdict_key payload))
      (listed (get evidence_key payload) (direct (get checks_key payload) []))

-- The outcome that the dictionary has for a check; it has each check once, or the last one counts.
unfoldable pub in_dictionary : Ident → Fields → Option Ident
in_dictionary key Fields.end = none
in_dictionary key (Fields.field k (Json.text o) fs) =
    let later = in_dictionary key fs in first_of_two later (if k == key then some o else none)
in_dictionary key (Fields.field k _ fs) = in_dictionary key fs

abbrev pub named : Ident → Option (Ident × Ident) → Option Ident
named key none = none
named key (some (c, o)) = if c == key then some o else none

-- The first outcome that a list has for a check.
unfoldable pub in_list : Ident → Items → Option Ident
in_list key Items.nil = none
in_list key (Items.cons x xs) = first_of_two (named key (entry x)) (in_list key xs)

abbrev pub of_dictionary : Ident → Option Json → Option Ident
of_dictionary key (some (Json.obj fs)) = in_dictionary key fs
of_dictionary key _ = none

abbrev pub of_list : Ident → Option Json → Option Ident
of_list key (some (Json.arr xs)) = in_list key xs
of_list key _ = none

outcome_of-put_outcome :
    (key k v : Ident) (os : Outcomes)
    → outcome_of key (put_outcome k v os) ≡ (if k == key then some v else outcome_of key os)
unfolding outcome_of put_outcome
outcome_of-put_outcome key k v [] = refl
outcome_of-put_outcome key k v ((j, w) ∷ os) = ground (arith, outcome_of-put_outcome key k v os)

outcome_of-append_one :
    (key k v : Ident) (os : Outcomes)
    → outcome_of key (os ++ (k, v) ∷ [])
      ≡ first_of_two (outcome_of key os) (if k == key then some v else none)
unfolding outcome_of
outcome_of-append_one key k v [] = refl
outcome_of-append_one key k v ((j, w) ∷ os) = ground (arith, outcome_of-append_one key k v os)

outcome_of-put_default :
    (key k v : Ident) (os : Outcomes)
    → outcome_of key (put_default k v os)
      ≡ first_of_two (outcome_of key os) (if k == key then some v else none)
unfolding put_default
outcome_of-put_default key k v os = elim (Option-cases (outcome_of k os)) [
  | inl free ↦ rw (free, put_default) (outcome_of-append_one key k v os)
  | inr (o, taken) ↦ elim (Bool-cases (k == key)) [
    | inl same ↦
        let e : k ≡ key = ground arith in
        let there : outcome_of key os ≡ some o = rw (← e) taken in
        rw (taken, there, put_default) refl
    | inr other ↦ elim (Option-cases (outcome_of key os)) [
      | inl missing ↦ rw (taken, missing, other, put_default) refl
      | inr (u, there) ↦ rw (taken, there, put_default) refl
    ]
  ]
]

dictionary_first :
    (key : Ident) (fs : Fields) (os : Outcomes)
    → outcome_of key (from_dictionary fs os)
      ≡ first_of_two (in_dictionary key fs) (outcome_of key os)
unfolding from_dictionary in_dictionary
dictionary_first key Fields.end os = refl
dictionary_first key (Fields.field k (Json.text o) fs) os =
    ground (arith, dictionary_first key fs (put_outcome k o os), outcome_of-put_outcome key k o os)
dictionary_first key (Fields.field k Json.null fs) os = dictionary_first key fs os
dictionary_first key (Fields.field k (Json.bool b) fs) os = dictionary_first key fs os
dictionary_first key (Fields.field k (Json.num n) fs) os = dictionary_first key fs os
dictionary_first key (Fields.field k (Json.arr xs) fs) os = dictionary_first key fs os
dictionary_first key (Fields.field k (Json.obj gs) fs) os = dictionary_first key fs os

list_after_entry :
    (key : Ident) (e : Option (Ident × Ident)) (os : Outcomes)
    → outcome_of key (put_entry e os) ≡ first_of_two (outcome_of key os) (named key e)
list_after_entry key none os = ground arith
list_after_entry key (some (c, o)) os = outcome_of-put_default key c o os

list_after :
    (key : Ident) (xs : Items) (os : Outcomes)
    → outcome_of key (from_list xs os) ≡ first_of_two (outcome_of key os) (in_list key xs)
unfolding from_list in_list
list_after key Items.nil os = ground arith
list_after key (Items.cons x xs) os =
    ground (arith, list_after key xs (put_entry (entry x) os), list_after_entry key (entry x) os)

listed_after :
    (key : Ident) (o : Option Json) (os : Outcomes)
    → outcome_of key (listed o os) ≡ first_of_two (outcome_of key os) (of_list key o)
listed_after key none os = ground arith
listed_after key (some (Json.arr xs)) os = list_after key xs os
listed_after key (some Json.null) os = ground arith
listed_after key (some (Json.bool b)) os = ground arith
listed_after key (some (Json.num n)) os = ground arith
listed_after key (some (Json.text x)) os = ground arith
listed_after key (some (Json.obj fs)) os = ground arith

direct_first : (key : Ident) (o : Option Json) → outcome_of key (direct o []) ≡ of_dictionary key o
unfolding outcome_of
direct_first key none = refl
direct_first key (some (Json.obj fs)) = ground (arith, dictionary_first key fs [])
direct_first key (some Json.null) = refl
direct_first key (some (Json.bool b)) = refl
direct_first key (some (Json.num n)) = refl
direct_first key (some (Json.text x)) = refl
direct_first key (some (Json.arr xs)) = refl

-- The outcome of a check is the one that the dictionary `checks` has for it; else the first that the
-- list `evidence` has; else the first that the model's verdict has; else there is none.
pub outcome_of-extract_verifier_check_results :
    (key : Ident) (payload : Fields)
    → outcome_of key (extract_verifier_check_results payload)
      ≡ first_of_two (of_dictionary key (get checks_key payload)) (
          first_of_two
            (of_list key (get evidence_key payload))
            (of_list key (checks_of_model (get model_verdict_key payload))))
unfolding extract_verifier_check_results
outcome_of-extract_verifier_check_results key payload = ground (
  arith,
  listed_after key (checks_of_model (get model_verdict_key payload))
      (listed (get evidence_key payload) (direct (get checks_key payload) [])),
  listed_after key (get evidence_key payload) (direct (get checks_key payload) []),
  direct_first key (get checks_key payload),
)
