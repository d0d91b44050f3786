-- ===== src/Store/History/Redrafting.antt =====
-- What the repetition of `save_contract` does at any later time
-- (src/longtask/persistence/store.py).
use lhgp.Prelude.{none, Option, List, [], ◌∷◌, ◌&&◌, nat_eq, if◌then◌else◌}
use lhgp.Contracts.Policies.{Ident}
use lhgp.Store.EventType.{event_eq}
use lhgp.Store.Types.{StoredEvent, Store}
use lhgp.Store.Events.{asked_by}
use lhgp.Store.Saving.{Saving, is_prepared}

-- The contract of the first draft that was asked for under the key.
abbrev drafted_by : Ident → List StoredEvent → Option Ident
drafted_by r [] = none
drafted_by r (e ∷ es) = if asked_by r e && is_prepared e then e.contract_id else drafted_by r es
