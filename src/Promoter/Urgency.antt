-- ===== src/Promoter/Urgency.antt =====
-- The urgency formula and the tiers (src/lhgp/promoter/urgency.py). The floating-point numbers are a
-- parameter.
pub mod Order
use mathlib.Core.Option
use lhgp.Prelude.{
  ℕ, ◌≤◌, ◌<◌, ◌≡◌, ◌≢◌, ◌↔◌, ◌⊎◌, refl, Bool, true, false, not, ◌&&◌, ◌||◌, Option, none, some,
  List, [], ◌∷◌, ◌==◌, nat_eq, Equality, nat_beq, index_beq_iff, contains, is_some, if◌then◌else◌,
  leb, ltb, arith, zero, suc, inl, inr,
}

-- What the code uses of `float`.
pub record Floats : Type 1 where
  pub Float : Type 0
  pub lt : Float → Float → Bool
  pub le : Float → Float → Bool
  pub div : Float → Float → Float
  pub zero_point : Float

pub data UrgencyTier : Type 0 where
  queued remind steer respawn parallel hand_to_user : UrgencyTier

abbrev pub int_of : UrgencyTier → ℕ
int_of UrgencyTier.queued = 0
int_of UrgencyTier.remind = 1
int_of UrgencyTier.steer = 2
int_of UrgencyTier.respawn = 3
int_of UrgencyTier.parallel = 4
int_of UrgencyTier.hand_to_user = 5

abbrev pub tier_of_int : ℕ → UrgencyTier
tier_of_int zero = UrgencyTier.queued
tier_of_int (suc zero) = UrgencyTier.remind
tier_of_int (suc (suc zero)) = UrgencyTier.steer
tier_of_int (suc (suc (suc zero))) = UrgencyTier.respawn
tier_of_int (suc (suc (suc (suc zero)))) = UrgencyTier.parallel
tier_of_int _ = UrgencyTier.hand_to_user

pub tier_of_int-int_of : (t : UrgencyTier) → tier_of_int (int_of t) ≡ t
tier_of_int-int_of UrgencyTier.queued = refl
tier_of_int-int_of UrgencyTier.remind = refl
tier_of_int-int_of UrgencyTier.steer = refl
tier_of_int-int_of UrgencyTier.respawn = refl
tier_of_int-int_of UrgencyTier.parallel = refl
tier_of_int-int_of UrgencyTier.hand_to_user = refl

instance abbrev pub tier_eq : Equality UrgencyTier
tier_eq = record {
  equal = λ a b. nat_beq (int_of a) (int_of b);
  equal_iff = index_beq_iff int_of tier_of_int tier_of_int-int_of;
}

-- Python's `min` of two tiers, which returns the first of two that are equal.
abbrev pub min_tier : UrgencyTier → UrgencyTier → UrgencyTier
min_tier a b = if ltb (int_of b) (int_of a) then b else a

module _ (f : Floats) where
  open f use {Float, lt, le, div, zero_point}

  pub record UrgencyThresholds : Type 0 where
    pub remind : Float
    pub steer : Float
    pub respawn : Float
    pub hand_to_user : Float

  -- `UrgencyThresholds.validate`: no errors.
  unfoldable pub is_valid_thresholds : UrgencyThresholds → Bool
  is_valid_thresholds t =
      lt zero_point t.remind
      && (lt t.remind t.steer && (lt t.steer t.respawn && lt t.respawn t.hand_to_user))

  -- The outer option is none where the code raises `ValueError`.
  unfoldable pub urgency : Float → Float → Option (Option Float)
  urgency remaining_hours hours_left =
      if le hours_left zero_point
      then some none
      else if lt remaining_hours zero_point
      then none
      else some (some (div remaining_hours hours_left))

  unfoldable pub classify : Option Float → UrgencyThresholds → Option UrgencyTier
  classify none thresholds = none
  classify (some u) thresholds = some (
      if lt u thresholds.remind
      then UrgencyTier.queued
      else if lt u thresholds.steer
      then UrgencyTier.remind
      else if lt u thresholds.respawn
      then UrgencyTier.steer
      else UrgencyTier.respawn)
