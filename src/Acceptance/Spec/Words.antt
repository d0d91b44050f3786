-- ===== src/Acceptance/Spec/Words.antt =====
-- The words, the results and the verdicts of acceptance specs (src/lhgp/acceptance/spec.py).
--
-- A spec is JSON. An outcome is a text, one of those below or any other.
use lhgp.Prelude.{ℕ, Bool, false, Option, none, some, List, [], ◌∷◌, ◌==◌, nat_eq, if◌then◌else◌}
use lhgp.Contracts.Policies.{Ident, Json}

abbrev pub all_key : Ident
all_key = 10

abbrev pub any_key : Ident
any_key = 11

abbrev pub judge_key : Ident
judge_key = 12

abbrev pub kind_key : Ident
kind_key = 13

abbrev pub target_key : Ident
target_key = 14

abbrev pub question_key : Ident
question_key = 15

abbrev pub machine : Ident
machine = 16

abbrev pub unknown : Ident
unknown = 17

abbrev pub user_confirm : Ident
user_confirm = 18

abbrev pub default_question : Ident
default_question = 19

abbrev pub pass : Ident
pass = 20

abbrev pub fail : Ident
fail = 21

abbrev pub pending : Ident
pending = 22

abbrev pub undetermined : Ident
undetermined = 23

-- The text "<kind>:<target>" of a check, and which texts are blank.
pub record Texts : Type 0 where
  pub identity : Json → Json → Ident
  pub blank : Ident → Bool

abbrev pub is_text : Ident → Option Json → Bool
is_text name (some (Json.text t)) = t == name
is_text name _ = false

-- `detail` is "check <identity> returned <outcome>", or "requires user".
pub data Detail : Type 0 where
  returned : Ident → Ident → Detail
  requires_user : Detail

-- The `source` is "user" for a user's criterion and "typed-check" for a check: it follows from `judge`.
pub record CheckResult : Type 0 where
  pub judge : Ident
  pub kind : Json
  pub target : Json
  pub outcome : Ident
  pub detail : Detail

-- The texts of the `summary`; an empty list is "no criteria".
pub data Part : Type 0 where
  machine_passed machine_failed user_waiting : ℕ → Part

pub record SpecVerdict : Type 0 where
  pub outcome : Ident
  pub results : List CheckResult
  pub summary : List Part
  pub machine_pass : ℕ
  pub machine_fail : ℕ
  pub user_pending : ℕ

-- The outcomes of a contract run, from check identity to outcome.
abbrev pub Outcomes : Type 0
Outcomes = List (Ident × Ident)

unfoldable pub outcome_of : Ident → Outcomes → Option Ident
outcome_of key [] = none
outcome_of key ((k, o) ∷ os) = if k == key then some o else outcome_of key os
