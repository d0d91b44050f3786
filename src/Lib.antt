-- ===== src/Lib.antt =====
-- Verification of lhgp: a store of long-horizon contracts, and the rules by which attempts work on
-- them.
--
-- A contract is a unit of work with a deadline, an acceptance standard and a budget. Attempts work
-- on it under a lease that one of them holds at a time. The program keeps contracts, their
-- revisions, an event log, leases, attempts and an outbox of notifications in SQLite; a lease
-- carries a generation that fences the writes of holders that have been replaced, and a request id
-- makes a write repeatable.
--
-- The files and what they model:
--   Prelude          Boolean tests, lists, equality as an interface, chains of allowed steps; in
--                    Prelude/Tables a table of the database as a list of rows, with SELECT, UPDATE,
--                    DELETE and upsert and their laws.
--   Contracts        src/lhgp/contracts: Axes has the enumerations of contract_view.py, Policies the
--                    records of a draft, and Machine the transition tables and predicates of
--                    state_machine.py, with the same names in the same order. Dicts has Python's
--                    dictionaries of JSON, and Exchange to_dict and from_dict of continuity.py,
--                    authority.py and auto_approve.py.
--   Store/EventType, Store/Types, Store/Events
--                    src/lhgp/persistence/{events,types,errors,events_query}.py: the rows of the
--                    tables, the state of the store as a record of tables, and the event log.
--   Store/Leases     src/longtask/persistence/leases.py: get_lease, acquire_lease, reclaim_lease,
--                    renew_lease and release_lease.
--   Store/Requests, Store/Contracts
--                    src/longtask/persistence/store.py: get_contract and update_contract_state with
--                    all that it calls; Revision and Update say what a call that returns has
--                    written, Invariant has the invariant of the tables, Replay the answers and the
--                    repetition of calls.
--   Store/Drafts, Store/Saving, Store/Patching
--                    store.py: save_contract and patch_contract, each with what a call that returns
--                    has written (Update), and when a patch succeeds.
--   Store/Outbox     src/longtask/persistence/notifications.py: enqueue_notification,
--                    claim_notifications, mark_sent, mark_failed, drain_notifications and
--                    prune_sent;
--                    Leasing is about who may deliver, Draining about a round of deliveries.
--   Store/Quiet      store.py: _notification_kind and _notification_available_at.
--   Store/WriteBack  store.py: write_back.
--   Store/Attempts   src/longtask/persistence/attempts.py.
--   Store/History    Sequences of the calls above, in any order, and what holds over them: Rules of a
--                    contract, Validity of the tables, Log of the event log, Redrafting of a draft
--                    that is repeated.
--   Acceptance       src/lhgp/acceptance/spec.py: Spec has the evaluation of a spec and Validation
--                    its validation; Reading says what a spec means apart from that, and Refinement
--                    relates the two. Results is _extract_verifier_check_results of
--                    src/longtask/cli/tick.py, which feeds the evaluation.
--   Goals            Progress is src/lhgp/goals/progress.py and Amending has patch_goal and
--                    advance_goal of store.py; Stages, Completion and Ordering are about a goal's
--                    way through its plan. Authorizing has auto_approve_drafted_contract of store.py
--                    with all that it calls.
--   Promoter         src/lhgp/promoter: Lease is the fence of lease.py, Urgency the tiers of
--                    urgency.py, Escalation the ladder of escalation.py and Fairness all of
--                    fairness.py.
--   Scheduler        src/lhgp/scheduler/ticker.py: run_tick and how often a contract expires.
--   Admission        src/lhgp/admission/eligibility.py and the lookups of
--                    src/lhgp/contracts/authority.py.
--   Samples and the modules called Tests hold data and examples.
--
-- How the state and the operations correspond to the code. A call on a connection is a function
-- from the store to a result and the next store, and an error comes without a store: the
-- transaction is rolled back. A lease keeps the key of its partition as it is stored. Calls follow
-- each other; the locks by which SQLite makes transactions follow each other are not modelled. The
-- keyword arguments of a call are a record. A text that is only compared is a number, and 0 is the
-- empty text, which Python takes for false; instants and spans count microseconds; JSON is a value
-- that is stored and read back as it was. Event ids are given out in order and never again. Where
-- the database may order rows of the same instant as it likes, the model takes the order of
-- writing. SQL compares times as texts in ISO format, in the outbox and in the searches for verdicts
-- and amendments, and the model compares the instants: the two agree where all times are written with
-- one offset from UTC, as the daemon writes them. A call of update_contract_state may name any text as
-- the type of its event; the model admits the types that events.py declares. Every function is total by structural recursion; no fuel is used.
--
-- Parameters of the model. The record Store/Quiet/Platform has the time zone database, Python's
-- int of a text, str.strip, and == of two JSON values; the one hypothesis on it is Steady, that
-- the clock of a zone runs evenly. The records Texts of Acceptance and of Goals and Values of
-- Contracts/Exchange have what Python makes of values as texts and numbers (f-strings, str, strip,
-- int, iteration), with no hypothesis. A channel of the outbox is a function that accepts a
-- notification or raises. The record Promoter/Urgency/Floats has what the code uses of float; the
-- one hypothesis on it is IsOrder, which holds of numbers that are not NaN.
--
-- Not modelled: prune_terminal_events of src/lhgp/persistence/maintenance.py, which deletes old events
-- of contracts in a terminal state, so that what is said over sequences of calls is not said of it;
-- the parsing of rows that another program changed, the column updated_at of leases,
-- the channel of the outbox, the view of its contracts that a goal is read with, the typed checks
-- of acceptance, which run commands and read files, the servers, the adapters that start
-- executors, the loop of the daemon, and the reports.
pub mod Prelude
pub mod Contracts
pub mod Store
pub mod Acceptance
pub mod Goals
pub mod Promoter
pub mod Scheduler
pub mod Admission
