-- ===== src/Prelude/Interface.antt =====
-- Equality as an interface: the enumerations of the program and its identifiers are compared by it.
use Prim.Native.Nat.{ℕ}
use mathlib.Core.Path.{◌≡◌, refl, sym, ap, ◌∙◌}
use mathlib.Core.Logic.{◌↔◌}
use mathlib.Core.Bool.{Bool, true, false, ◌||◌}
use mathlib.Core.Option.{Option, none, some}
use mathlib.Core.List.{List, [], ◌∷◌}
use lhgp.Prelude.Tests.{nat_beq, nat_beq_iff}

pub record Equality {ℓ} (Carrier : Type ℓ) : Type ℓ where
  pub equal : Carrier → Carrier → Bool
  pub equal_iff : (x y : Carrier) → (equal x y ≡ true) ↔ (x ≡ y)

-- An enumeration is compared by the position of its constructor, which can be read back.
pub index_beq_iff :
    {A : Type 0} (index : A → ℕ) (of_index : ℕ → A)
    → ((a : A) → of_index (index a) ≡ a)
    → (a b : A) → (nat_beq (index a) (index b) ≡ true) ↔ (a ≡ b)
index_beq_iff index of_index back a b = (
  λ h. sym (back a) ∙ ap of_index ((nat_beq_iff (index a) (index b)).0 h) ∙ back b,
  λ h. (nat_beq_iff (index a) (index b)).1 (ap index h),
)

-- Python's `==`.
abbrev pub ◌==◌ {ℓ} : {A : Type ℓ} ⦃equality : Equality A⦄ → A → A → Bool
◌==◌ ⦃equality⦄ = equality.equal

infix 50 ◌==◌
instance abbrev pub nat_eq : Equality ℕ
nat_eq = record { equal = nat_beq; equal_iff = nat_beq_iff }

module _ {A : Type 0} ⦃e : Equality A⦄ where
  pub ==_refl : (a : A) → (a == a) ≡ true
  ==_refl a = (e.equal_iff a a).1 refl

  abbrev pub option_beq : Option A → Option A → Bool
  option_beq none none = true
  option_beq none (some b) = false
  option_beq (some a) none = false
  option_beq (some a) (some b) = a == b

  -- Python's `x in xs`.
  abbrev pub contains : A → List A → Bool
  contains a [] = false
  contains a (x ∷ xs) = a == x || contains a xs
