-- ===== src/Store/Tests/Policies.antt =====
-- Examples of policy values as JSON: those of the sample draft.
use lhgp.Prelude.{◌≡◌, refl, none, some}
use lhgp.Contracts.Exchange.{
  Values, continuity_to_dict, continuity_from_dict, authority_to_dict, authority_from_dict,
  auto_approve_to_dict, auto_approve_from_dict,
}
use lhgp.Contracts.Exchange.RoundTrip.{draft_policies_back}
use lhgp.Store.Samples.{contract}

abbrev values : Values
values = record { shown = λ j. 91; whole = λ j. none; iterated = λ j. none }

draft_policies_back_example :
    (continuity_from_dict values (continuity_to_dict contract.draft.continuity)
      ≡ some contract.draft.continuity)
    × (authority_from_dict values (authority_to_dict contract.draft.authority)
        ≡ some contract.draft.authority)
    × (auto_approve_from_dict values (auto_approve_to_dict contract.draft.auto_approve)
        ≡ some contract.draft.auto_approve)
draft_policies_back_example = draft_policies_back values contract.draft refl
