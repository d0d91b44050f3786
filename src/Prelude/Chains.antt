-- ===== src/Prelude/Chains.antt =====
-- Chains of steps that a Boolean test allows.
use mathlib.Core.Path.{◌≡◌}
use mathlib.Core.Bool.{Bool, true}

-- The states that a chain of steps, each allowed by the test, leads to.
pub data Reach {A : Type 0} (allowed : A → A → Bool) (s : A) : A → Type 0 where
  here : Reach allowed s s
  next : {t u : A} → Reach allowed s t → allowed t u ≡ true → Reach allowed s u

-- A set of values that no allowed step leaves holds the end of a chain if it holds the start.
pub Reach-closed :
    {A : Type 0} {allowed : A → A → Bool} {s t : A} (P : A → Type 0)
    → ((a b : A) → P a → allowed a b ≡ true → P b)
    → P s
    → Reach allowed s t
    → P t
Reach-closed P keep p here = p
Reach-closed P keep p (next r h) = keep _ _ (Reach-closed P keep p r) h

pub Reach-append :
    {A : Type 0} {allowed : A → A → Bool} {s t u : A}
    → Reach allowed s t
    → Reach allowed t u
    → Reach allowed s u
Reach-append r here = r
Reach-append r (next q h) = next (Reach-append r q) h
