-- ===== src/Store/Requests.antt =====
-- Which requests have been seen (src/longtask/persistence/store.py, `_replayed_events`).
use lhgp.Prelude.{Bool, Option, some, List, nat_eq, option_beq, if◌then◌else◌, all}
use lhgp.Contracts.Policies.{Ident}
use lhgp.Store.Types.{StoredEvent, Store, Result, ok, err, idempotency_mismatch}
use lhgp.Store.Leases.{truthy, seen_by}

abbrev pub owned_by : Ident → StoredEvent → Bool
owned_by contract_id e = option_beq e.contract_id (some contract_id)

-- The events of the key, if they are all this contract's; a key that another contract used is refused.
unfoldable pub replayed_events : Option Ident → Ident → Store → Result (List StoredEvent)
replayed_events request_id contract_id s =
    let existing = seen_by (truthy request_id) s in
    if all (owned_by contract_id) existing then ok existing else err idempotency_mismatch
