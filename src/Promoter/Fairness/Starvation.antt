-- ===== src/Promoter/Fairness/Starvation.antt =====
-- Starved contracts come first (src/lhgp/promoter/fairness.py).
use lhgp.Prelude.{
  ℕ, ◌+◌, ◌≡◌, refl, Bool, true, false, not, ◌&&◌, Option, List, [], ◌∷◌, ◌++◌, ◌==◌, nat_eq,
  ==_refl, contains, filter, length, leb, arith, Bool-cases, inl, inr, ◌∙◌,
}
use lhgp.Contracts.Policies.{Ident}
use lhgp.Promoter.Fairness.{
  ContractFairnessState, observe_tick, is_starved, starves, apply_fairness_order, default_fairness,
}

contains-filter :
    (p : Ident → Bool) (c : Ident) (xs : List Ident)
    → contains c (filter p xs) ≡ (p c && contains c xs)
contains-filter p c [] = ground arith
contains-filter p c (x ∷ xs) = elim (Bool-cases (c == x)) [
  | inl same ↦
      let e : c ≡ x = ground arith in rw (← e) (ground (arith, ==_refl c, contains-filter p c xs))
  | inr other ↦ ground (arith, contains-filter p c xs)
]

filter_same :
    (p q : Ident → Bool) (xs : List Ident)
    → ((c : Ident) → contains c xs ≡ true → p c ≡ q c)
    → filter p xs ≡ filter q xs
filter_same p q [] h = refl
filter_same p q (x ∷ xs) h =
    let here = h x (ground (arith, ==_refl x)) in
    let rest = filter_same p q xs (λ c there. h c (ground arith)) in ground arith

-- The starved contracts come first, then the others, each part in the order given.
pub starved_first :
    (cids : List Ident) (states : Ident → Option ContractFairnessState)
    → apply_fairness_order cids states
      ≡ filter (starves states) cids ++ filter (λ c. not (starves states c)) cids
unfolding apply_fairness_order
starved_first cids states =
    rw
      (filter_same (λ c. not (contains c (filter (starves states) cids)))
        (λ c. not (starves states c)) cids
        (λ c there. ground (arith, contains-filter (starves states) c cids)))
      refl

abbrev pub count : Ident → List Ident → ℕ
count c xs = length (filter (λ x. x == c) xs)

count-append : (c : Ident) (xs ys : List Ident) → count c (xs ++ ys) ≡ count c xs + count c ys
count-append c [] ys = omega arith
count-append c (x ∷ xs) ys = ground (arith, count-append c xs ys)

count-filter :
    (p : Ident → Bool) (c : Ident) (xs : List Ident)
    → count c (filter p xs) + count c (filter (λ x. not (p x)) xs) ≡ count c xs
count-filter p c [] = omega arith
count-filter p c (x ∷ xs) = ground (arith, count-filter p c xs)

-- Reordering loses no contract and adds none: each is there as often as before.
pub order_permutes :
    (cids : List Ident) (states : Ident → Option ContractFairnessState) (c : Ident)
    → count c (apply_fairness_order cids states) ≡ count c cids
order_permutes cids states c = rw (starved_first cids states) (
    count-append c (filter (starves states) cids) (filter (λ x. not (starves states x)) cids)
    ∙ count-filter (starves states) c cids)

-- Ticks without a dispatch, at the tiers given.
abbrev pub passed_over : List ℕ → ContractFairnessState → ContractFairnessState
passed_over [] s = s
passed_over (tier ∷ tiers) s = passed_over tiers (observe_tick tier false s).1

waited :
    (tiers : List ℕ) (s : ContractFairnessState)
    → (passed_over tiers s).ticks_since_last_dispatch ≡ s.ticks_since_last_dispatch + length tiers
unfolding observe_tick
waited [] s = omega arith
waited (tier ∷ tiers) s = ground (arith, waited tiers (observe_tick tier false s).1)

-- After a dispatch, at whatever tier, a contract is starved exactly when it has been passed over in at
-- least as many ticks as the threshold says, and also when its tier changed from tick to tick.
pub starved_after :
    (tier : ℕ) (tiers : List ℕ) (s : ContractFairnessState)
    → is_starved (passed_over tiers (observe_tick tier true s).1)
      ≡ leb default_fairness.starvation_ticks (length tiers)
unfolding observe_tick
starved_after tier tiers s = ground (arith, waited tiers (observe_tick tier true s).1)
