-- ===== src/Store/Patching/Answer.antt =====
-- When `patch_contract` succeeds (src/longtask/persistence/store.py).
use lhgp.Prelude.{Option, none, some, ◌==◌, nat_eq, if◌then◌else◌}
use lhgp.Store.Types.{ContractView, Store, Result, ok, err, store_error, revision_conflict}
use lhgp.Store.Patching.{Patch, set_terms}

-- The answer of a patch that is no replay, at a store that satisfies the invariant.
abbrev pub patch_outcome : Patch → Option ContractView → Result ContractView
patch_outcome c none = err store_error
patch_outcome c (some current) =
    if current.revision == c.expected_revision
    then ok (set_terms c current current)
    else err revision_conflict
