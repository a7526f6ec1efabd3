-- ===== src/Lib.antt =====
-- Dockyard turns a Git repository into a task-card-driven workflow of several agents. Its Python
-- services under skills/agentdesk/scripts keep the durable evidence and decide who may work, on
-- what, and when; this library models those services and states what makes them correct.
--
-- Common to all parts: an exception is the value `raises` of `Attempt` (Base/Results.antt), so a
-- call that raises leaves the durable document as it was unless the model says otherwise; `==` of
-- the program's texts, numbers and enumerations is decided equality (Base/Tests.antt);
-- `isinstance` checks are the types of the model. File locks make each public operation atomic,
-- so an interleaving of workers is a sequence of operations.
--
-- Base and Base/*.antt: results, Boolean tests, list quantifiers, the text checks (`str.strip`,
-- control characters), lines (Base/LineBreaks, Base/Documents) and texts from code points
-- (Base/Chars). CoreTypes.antt: the enumerations of core_types.py.
--
-- SlotLease (skills/agentdesk/scripts/worker_slot_lease.py): `LeaseStore` is the document of
-- worker-slot-lease.yaml, its `leases` object an association list in the order of insertion.
-- SlotLease/Validate is `validate_worker_slot_store` on a document whose keys and field types are
-- right; SlotLease/Lifecycle has `acquire_worker_slot`, `release_worker_slot`,
-- `renew_worker_slot` and the checks of `hold_worker_slot_fence`; `_atomic_write_store` is its
-- validation of the document before the write (Guard says when that refuses). An instant counts
-- microseconds from 0001-01-01T00:00:00Z, and a written time loses its fraction of a second
-- (`_dt_to_utc_str`); the end of Python's calendar is not modelled. The path that
-- `_normalize_workspace` resolves and the texts of `secrets.token_hex` are arguments. The sixteen
-- draws of `_generate_unique_lease_id` are the fuel of `first_unused`, as in the source. The
-- updated_at sentinel is compared as an instant.
--
-- Portfolio/Entry has the value objects of skills/agentdesk/scripts/portfolio_scheduler_store.py,
-- Portfolio/Policy the selection of the next entry (portfolio_scheduler_policy.py).
-- Portfolio/Policy/Filters has its validation and filters, Keys its sort orders, Ranks the aging
-- ranks, Eligible the filters, Selection and SelectNext the choice. Python's sorted is insertion
-- by the order of the keys (Base/Sort), a frozenset a list of which only membership is asked, a
-- dict from ids to ranks an association list. `str.casefold`, `datetime.fromisoformat` and the
-- digest of a receipt are arguments. An entry is one that its constructor accepted, so of the
-- checks on a receipt only that of its instant can fail.
--
-- Portfolio/Codec writes the canonical lines of an entry and a receipt
-- (skills/agentdesk/scripts/portfolio_scheduler_store.py), Codec/Reader reads a scalar and a
-- line, Codec/Printed says that no control character is written, and RoundTrip relates the two.
-- Portfolio/Store is the store of that file: State has its files and the checks on them, Counter
-- the text of the counter file as code points, without its UTF-8 coding, Queue, Receipts and
-- Admission the operations. An admission plan is its fields that name an entry and a receipt; its
-- own validation and its file, in a directory that no other modelled operation reads, are two
-- arguments of `reserve_admission_selection`, each an outcome. Elsewhere a file is the document
-- it encodes, `none` where it is missing, and two documents are compared by their lines; the
-- digest of the lines is an argument, as is the time. An operation runs under the store's lock
-- and is a function from the store to an exception or the new store and a result;
-- `advance_schedule_receipt` and `reserve_admission_selection`, which write before their last
-- check, give the store beside the outcome. A history is any sequence of these operations with
-- any arguments (History): the operations of the file that write the queue, the counter,
-- receipts, tombstones or reservations, `retire_queue_entry` being a call of
-- `advance_queue_phase`. Growth is an order on stores, Moves, Recover and Evidence are about what
-- each operation writes, Valid, Loadable, Writes and Sound about the stores that `_load_state`
-- accepts, Total about calls on them, Resume about a recovery cut off between its writes, Once
-- about what follows a tombstone or a dispatch. A file that cannot be decoded is not modelled,
-- and a call cut off between two writes only where a theorem names it.
--
-- ContextBudget is skills/agentdesk/scripts/context_budget.py (`compute_budget`), Escalation is
-- skills/agentdesk/scripts/escalation_service.py (`evaluate_escalation`). An explicit `raise
-- AssertionError` of the source is an error of the model, so that it can be shown unreachable.
--
-- Difficulty is skills/agentdesk/scripts/difficulty_assessor.py (`assess_task_difficulty`):
-- Difficulty/Rationale the table of keys, Difficulty/Maximum the order of the difficulties and
-- `_maximum_difficulty`, Difficulty/Settling and Difficulty/Assessment what a returned assessment
-- guarantees. The seven rationale keys are looked up in the table of the source.
--
-- RateLimit is skills/agentdesk/scripts/rate_limit.py: the constructors' checks and
-- `RateLimitService.evaluate`; RateLimit/Waits has the wait of one signal and their maximum,
-- RateLimit/Verdict the aggregation, RateLimit/Decision the evaluation. An instant counts
-- microseconds; `math.ceil` of a difference of seconds is a division rounded up, and the rounding
-- of `total_seconds` as a float is not modelled.
--
-- Pairing is skills/agentdesk/scripts/dockyard_pairing.py: the directories of codes and devices
-- as functions from ids, with the listing of the devices in the order of their files, and issue,
-- consume, verify_device_token, authenticate, revoke_device and revoke_all. `consume`, which
-- counts a wrong code and then raises, and `revoke_all`, which writes one device after the other,
-- give the store beside the outcome. As in the source, a record is read from the file of the id
-- that a request names and written to the file of the id that the record holds; `revoke_all`
-- writes to the file that it has read. That the two agree is `Filed` (Changes), which the empty
-- store satisfies and every operation keeps. SHA-256, the digest of a record and the instants of
-- ISO texts (in microseconds) are the fields of Primitives, and the random secrets are arguments.
-- Pairing/Records has the records and the store, Codes issue and consume, Devices the rest;
-- Changes, Paired and Revoked say what each operation leaves as it is, History relates any
-- sequence of operations.
--
-- Sse is skills/agentdesk/scripts/dockyard_sse.py: the checks of the constructor of an event in
-- Sse.antt, `DockyardSseHub` in Sse/Hub, with `_events` as a function from project ids, and
-- `encode_sse_event` in Sse/Frame, as code points before UTF-8. SHA-256 and
-- `datetime.fromisoformat` are arguments. `wait_for_events` is a list of turns, each with the hub
-- and whether the deadline has passed; notify_all has no counterpart. Sse/Log has the abstract
-- log that the hub refines, Published, History and Resume relate the two over any sequence of
-- operations.
--
-- Worktree is skills/agentdesk/scripts/worktree_lifecycle_store.py: Worktree.antt has the phases
-- and the checks on texts and paths, Worktree/Records the reservation, the record and their
-- digests, Identity the ids derived from a request, Store the operations `reserve`,
-- `create_record` and `advance_record` on the two directories, Inventory the reading of `git
-- worktree list --porcelain -z`, Reconcile the decisions of `reconcile_worktree`. hashlib,
-- os.path and pathlib are the fields of Platform. In the store a file is the document that it
-- encodes, so its decoding is the constructor and the digest. Document has `_parse_scalar` and
-- `_document`, Decoding has `decode_reservation` and `decode_record` with the checks of the
-- types, on the text that the bytes spell: UTF-8 is not modelled. Document/Scalars,
-- Document/Lines, Printing, Decoded, Readers, Constructed, Roundtrip and Reservations are about
-- encoders and decoders. Moves, Changes and Saves are about what one operation writes, History,
-- Sound and Stages about sequences of them, Checks and Total about calls that succeed, Removal
-- about one decision, Replay about a reservation that is asked for again, Paths about the entries
-- of an inventory, Bindings about the text under an id.
--
-- Not modelled: file input and output, locks, fsync, subprocesses, Git and HTTP, the JSON and
-- YAML syntax of the documents, and the control plane, the workflow orchestrator, the approval
-- gate, the dispatch supervisor and the web runtime, which are built on the parts above.
pub mod Base
pub mod ContextBudget
pub mod CoreTypes
pub mod Difficulty
pub mod Escalation
pub mod Pairing
pub mod Portfolio
pub mod RateLimit
pub mod SlotLease
pub mod Sse
pub mod Worktree
