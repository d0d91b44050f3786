-- ===== src/Promoter/Fairness.antt =====
-- Fairness between contracts (src/lhgp/promoter/fairness.py).
pub mod Capacity
pub mod Starvation
use lhgp.Prelude.{
  ℕ, ◌+◌, Bool, true, false, not, Option, none, some, List, [], ◌∷◌, ◌++◌, ◌==◌, nat_eq, option_beq,
  if◌then◌else◌, contains, filter, length, leb, ltb,
}
use lhgp.Contracts.Policies.{Ident}

pub record FairnessConfig : Type 0 where
  pub starvation_ticks : ℕ
  pub max_dispatches_per_tick : ℕ

abbrev pub default_fairness : FairnessConfig
default_fairness = record { starvation_ticks = 5; max_dispatches_per_tick = 0 }

pub record ContractFairnessState : Type 0 where
  pub contract_id : Ident
  pub last_tier : Option ℕ
  pub tier_consecutive_ticks : ℕ
  pub ticks_since_last_dispatch : ℕ

abbrev counted : Bool → ContractFairnessState → ContractFairnessState
counted dispatched s =
    if dispatched
    then record s { tier_consecutive_ticks = 0; ticks_since_last_dispatch = 0 }
    else record s { ticks_since_last_dispatch = s.ticks_since_last_dispatch + 1 }

abbrev placed : ℕ → ContractFairnessState → ContractFairnessState
placed tier s =
    if option_beq s.last_tier (some tier)
    then record s { tier_consecutive_ticks = s.tier_consecutive_ticks + 1 }
    else record s { tier_consecutive_ticks = 1; last_tier = some tier }

abbrev pub is_starved : ContractFairnessState → Bool
is_starved s = leb default_fairness.starvation_ticks s.ticks_since_last_dispatch

-- The answer, and the state that the call leaves.
unfoldable pub observe_tick : ℕ → Bool → ContractFairnessState → Bool × ContractFairnessState
observe_tick tier dispatched s = let s' = placed tier (counted dispatched s) in (is_starved s', s')

-- `dispatched` is a set: a list without repetitions.
pub record TickCapacityLedger : Type 0 where
  pub config : FairnessConfig
  pub dispatched : List Ident

unfoldable pub dispatched_count : TickCapacityLedger → ℕ
dispatched_count ledger = length ledger.dispatched

unfoldable pub can_dispatch : Ident → TickCapacityLedger → Bool
can_dispatch contract_id ledger =
    if contains contract_id ledger.dispatched
    then false
    else if leb ledger.config.max_dispatches_per_tick 0
    then true
    else ltb (length ledger.dispatched) ledger.config.max_dispatches_per_tick

unfoldable pub record_dispatch : Ident → TickCapacityLedger → TickCapacityLedger
record_dispatch contract_id ledger =
    if contains contract_id ledger.dispatched
    then ledger
    else record ledger { dispatched = ledger.dispatched ++ contract_id ∷ [] }

abbrev pub starves : (Ident → Option ContractFairnessState) → Ident → Bool
starves fairness_states cid = elim (fairness_states cid) [ none ↦ false | some s ↦ is_starved s ]

-- The mapping of tiers is an argument that the code does not read.
unfoldable pub apply_fairness_order :
    List Ident → (Ident → Option ContractFairnessState) → List Ident
apply_fairness_order contract_ids fairness_states =
    let starved = filter (starves fairness_states) contract_ids in
    starved ++ filter (λ cid. not (contains cid starved)) contract_ids
