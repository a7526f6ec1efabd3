-- ===== src/Portfolio/Store/State.antt =====
-- The files of the store of skills/agentdesk/scripts/portfolio_scheduler_store.py, their validation
-- when they are read or written, and the checks that the operations share.
use dockyard.Base.{
  ℕ, zero, suc, ltb, ◌==◌, comparable_number, comparable_string, String, Bool, true, false, not,
  ◌&&◌, ◌||◌, List, [], ◌∷◌, map, any, Comparable, Option, none, some, if◌then◌else◌, Attempt,
  returns, raises, require, ◌>>=◌, ◌>>◌,
}
use dockyard.CoreTypes.{comparable_kind}
use dockyard.Portfolio.Entry.{
  QueueEntry, QueuePhase, ReceiptPhase, ScheduleReceipt, comparable_phase, comparable_receipt_phase,
}
use dockyard.Portfolio.Codec.{Line, entry_lines, receipt_lines, same_lines}

pub data StoreError : Type 0 where
  queue_digest_mismatch receipt_digest_mismatch : StoreError
  queue_sequence_order queue_sequence_duplicate queue_id_duplicate : StoreError
  task_revision_duplicate sequence_not_contiguous counter_missing_with_queue : StoreError
  queue_sequence_above_counter queue_sequence_unreserved : StoreError
  queue_entry_missing receipt_queue_binding selected_receipt_stale : StoreError
  dispatched_receipt_state tombstone_receipt_mismatch : StoreError
  queue_create_phase enqueue_sequence_unreserved queue_divergent_replay : StoreError
  task_revision_conflict sequence_conflict queue_generation_stale : StoreError
  dispatch_event_missing unexpected_dispatch_event queue_phase_transition : StoreError
  receipt_create_phase receipt_tombstoned receipt_divergent_replay : StoreError
  reservation_divergent receipt_missing receipt_recovered : StoreError
  receipt_finalized_or_recovered receipt_generation_stale receipt_event_replay : StoreError
  receipt_phase_transition receipt_not_dispatched recovery_tombstone_conflict : StoreError
  recovery_receipt recovery_receipt_binding recovery_incomplete_state recovery_state : StoreError
  selection_receipt_phase selection_queue_phase plan_selection_binding : StoreError
  invalid_plan divergent_plan : StoreError

pub data TombstoneKind : Type 0 where
  finalized selected_recovery : TombstoneKind

unfoldable pub TombstoneKind-discrete : Discrete TombstoneKind
TombstoneKind-discrete = hlevel

instance abbrev pub comparable_tombstone : Comparable TombstoneKind
comparable_tombstone = record { dec = TombstoneKind-discrete }

pub record Tombstone : Type 0 where
  pub kind : TombstoneKind
  pub receipt_id : String
  pub queue_id : String
  pub selection_generation : ℕ
  pub next_selection_generation : Option ℕ
  pub receipt_digest : String
  pub created_at : String

-- One field for each kind of file, `none` where there is no file. A receipt or tombstone is found
-- by the id in its file's name, a reservation by the queue id and the generation.
pub record SchedulerStore : Type 0 where
  pub queue : List QueueEntry
  pub sequence : Option (ℕ × List ℕ)
  pub receipts : String → Option ScheduleReceipt
  pub tombstones : String → Option Tombstone
  pub reservations : String → ℕ → Option ScheduleReceipt

abbrev pub put : {A : Type 0} → String → A → (String → Option A) → String → Option A
put k v m j = if j == k then some v else m j

abbrev pub put_generation :
    {A : Type 0} → String → ℕ → A → (String → ℕ → Option A) → String → ℕ → Option A
put_generation q g v m j h = if j == q && h == g then some v else m j h

-- `range(1, n + 1)` from `first`, for `count` numbers.
abbrev pub range_from : ℕ → ℕ → List ℕ
range_from first zero = []
range_from first (suc count) = first ∷ range_from (suc first) count

abbrev pub same_numbers : List ℕ → List ℕ → Bool
same_numbers [] [] = true
same_numbers (a ∷ xs) (b ∷ ys) = a == b && same_numbers xs ys
same_numbers _ _ = false

abbrev pub has_number : ℕ → List ℕ → Bool
has_number n ns = any (λ m. m == n) ns

-- `_encode_sequence`'s check, made on every read and write of the counter.
unfoldable pub check_sequence : ℕ → List ℕ → Attempt StoreError (Unit {0})
check_sequence last_issued reserved =
    require (same_numbers reserved (range_from 1 last_issued)) sequence_not_contiguous

abbrev pub find_entry : String → List QueueEntry → Option QueueEntry
find_entry q [] = none
find_entry q (e ∷ es) = if e.queue_id == q then some e else find_entry q es

abbrev pub or_missing : {A : Type 0} → Option A → StoreError → Attempt StoreError A
or_missing none e = raises e
or_missing (some a) e = returns a

-- `_find_queue_entry`
unfoldable pub find_queue_entry : List QueueEntry → String → Attempt StoreError QueueEntry
find_queue_entry entries q = or_missing (find_entry q entries) queue_entry_missing

unfoldable pub load_sequence :
    Option (ℕ × List ℕ) → List QueueEntry → Attempt StoreError (ℕ × List ℕ)
unfolding check_sequence
load_sequence none entries = do
  require (not (any (λ e. true) entries)) counter_missing_with_queue
  returns (0, [])
load_sequence (some (last_issued, reserved)) entries = do
  check_sequence last_issued reserved
  require (not (any (λ e. ltb last_issued e.enqueue_sequence) entries)) queue_sequence_above_counter
  require (not (any (λ e. not (has_number e.enqueue_sequence reserved)) entries))
      queue_sequence_unreserved
  returns (last_issued, reserved)

-- `_validate_receipt_binding`
unfoldable pub validate_receipt_binding :
    ScheduleReceipt → QueueEntry → Attempt StoreError (Unit {0})
validate_receipt_binding r e = do
  require
      (r.queue_id == e.queue_id
        && r.task_id == e.task_id
        && r.revision == e.revision
        && r.enqueue_sequence == e.enqueue_sequence
        && r.selection_generation == e.selection_generation
        && r.order_key.sequence == e.enqueue_sequence
        && r.order_key.key_queue_id == e.queue_id
        && r.worker_kind == e.worker_kind_request)
      receipt_queue_binding
  require (not (r.phase == ReceiptPhase.selected && not (e.state == QueuePhase.selected)))
      selected_receipt_stale
  require
      (not (
        r.phase == ReceiptPhase.dispatched
        && not (e.state == QueuePhase.dispatched || e.state == QueuePhase.retired)))
      dispatched_receipt_state

-- `_validate_tombstone_for_receipt`
unfoldable pub validate_tombstone_for_receipt :
    Tombstone → ScheduleReceipt → Attempt StoreError (Unit {0})
validate_tombstone_for_receipt t r =
    require
      (t.receipt_id == r.receipt_id
        && t.queue_id == r.queue_id
        && t.selection_generation == r.selection_generation
        && t.receipt_digest == r.content_digest)
      tombstone_receipt_mismatch

-- Two documents are compared by their bytes.
abbrev pub same_receipt : ScheduleReceipt → ScheduleReceipt → Bool
same_receipt r q = same_lines (receipt_lines r true []) (receipt_lines q true [])

abbrev pub same_entry : QueueEntry → QueueEntry → Bool
same_entry e f = same_lines (entry_lines e true []) (entry_lines f true [])

-- The checks of one entry in `_validate_queue_snapshot` against those before it.
unfoldable pub check_keys :
    ℕ
    → List ℕ
    → List String
    → List (String × ℕ)
    → ℕ
    → String
    → String
    → ℕ
    → Attempt StoreError (Unit {0})
check_keys previous sequences ids revisions sequence queue_id task_id revision = do
  require (ltb previous sequence) queue_sequence_order
  require (not (has_number sequence sequences)) queue_sequence_duplicate
  require (not (any (λ q. q == queue_id) ids)) queue_id_duplicate
  require (not (any (λ p. p.0 == task_id && p.1 == revision) revisions)) task_revision_duplicate

-- "sha256:" and the digest of the lines is a parameter.
module _ (hash : List Line → String) where
  -- `_ensure_entry_digest`
  unfoldable pub ensure_entry_digest : QueueEntry → Attempt StoreError (Unit {0})
  ensure_entry_digest e =
      require (e.content_digest == hash (entry_lines e false [])) queue_digest_mismatch

  unfoldable pub ensure_receipt_digest : ScheduleReceipt → Attempt StoreError (Unit {0})
  ensure_receipt_digest r =
      require (r.content_digest == hash (receipt_lines r false [])) receipt_digest_mismatch

  -- The loop of `_validate_queue_snapshot`.
  unfoldable pub validate_entries :
      ℕ → List ℕ → List String → List (String × ℕ) → List QueueEntry → Attempt StoreError (Unit {0})
  unfolding ensure_entry_digest check_keys
  validate_entries previous sequences ids revisions [] = returns tt
  validate_entries previous sequences ids revisions (e ∷ es) = do
    ensure_entry_digest e
    check_keys previous sequences ids revisions e.enqueue_sequence e.queue_id e.task_id e.revision
    validate_entries e.enqueue_sequence (e.enqueue_sequence ∷ sequences) (e.queue_id ∷ ids)
        ((e.task_id, e.revision) ∷ revisions) es

  unfoldable pub validate_queue_snapshot : List QueueEntry → Attempt StoreError (Unit {0})
  unfolding validate_entries
  validate_queue_snapshot entries = validate_entries 0 [] [] [] entries

  -- `_load_queue`; a missing file is the empty queue.
  unfoldable pub load_queue : SchedulerStore → Attempt StoreError (List QueueEntry)
  unfolding validate_queue_snapshot
  load_queue s = do validate_queue_snapshot s.queue; returns s.queue

  -- `_load_state`
  unfoldable pub load_state : SchedulerStore → Attempt StoreError (List QueueEntry × (ℕ × List ℕ))
  unfolding load_queue load_sequence
  load_state s = do
    entries ← load_queue s
    sequence ← load_sequence s.sequence entries
    returns (entries, sequence)

  -- `_write_queue`
  unfoldable pub write_queue : SchedulerStore → List QueueEntry → Attempt StoreError SchedulerStore
  unfolding validate_queue_snapshot
  write_queue s entries = do validate_queue_snapshot entries; returns (record s { queue = entries })

  -- `_write_sequence`
  unfoldable pub write_sequence : SchedulerStore → ℕ → List ℕ → Attempt StoreError SchedulerStore
  unfolding check_sequence
  write_sequence s last_issued reserved = do
    check_sequence last_issued reserved
    returns (record s { sequence = some (last_issued, reserved) })

  -- `_replace_entry` with a new phase and generation.
  unfoldable pub replace_entry : QueueEntry → QueuePhase → ℕ → QueueEntry
  replace_entry e state generation =
      let candidate : QueueEntry = record e { state = state; selection_generation = generation } in
      record candidate { content_digest = hash (entry_lines candidate false []) }

  -- `tuple(updated if item.queue_id == queue_id else item for item in entries)`
  unfoldable pub update_entries : String → QueueEntry → List QueueEntry → List QueueEntry
  update_entries q updated entries = map (λ e. if e.queue_id == q then updated else e) entries
