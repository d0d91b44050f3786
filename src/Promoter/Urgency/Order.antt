-- ===== src/Promoter/Urgency/Order.antt =====
-- More urgent work is never in a lower tier (src/lhgp/promoter/urgency.py).
use lhgp.Prelude.{ℕ, ◌≡◌, ◌≤◌, true, false, Option, none, some, arith}
use lhgp.Promoter.Urgency.{UrgencyTier, int_of, Floats, UrgencyThresholds, classify}

-- The place of a tier on the ladder, past the deadline first.
abbrev pub rank : Option UrgencyTier → ℕ
rank none = 0
rank (some t) = int_of t

-- A bound that a number lies below is a bound of every number that the first does not lie below: so
-- it is for numbers that are not NaN.
unfoldable pub IsOrder : Floats → Type 0
IsOrder f = (u v x : f.Float) → f.lt v u ≡ false → f.lt v x ≡ true → f.lt u x ≡ true

-- Where urgency does not fall, the tier does not fall; whatever the thresholds, valid or not.
pub classify_monotone :
    (f : Floats) (t : UrgencyThresholds f) (u v : f.Float)
    → IsOrder f
    → f.lt v u ≡ false
    → rank (classify f (some u) t) ≤ rank (classify f (some v) t)
unfolding classify IsOrder
classify_monotone f t u v order le =
    ground (arith, order u v t.remind le, order u v t.steer le, order u v t.respawn le)
