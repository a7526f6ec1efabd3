-- ===== src/Portfolio/Store/Samples.antt =====
-- A store for one task, through its dispatch or its recovery.
use dockyard.Base.Sort
use dockyard.Base.{
  ℕ, String, [], ◌∷◌, List, Option, some, none, comparable_number, comparable_string, ℕ_discrete,
  String-discrete,
}
use dockyard.CoreTypes.{basic_agent, WorkerKind-discrete}
use dockyard.Portfolio.Entry.{
  QueueEntry, QueuePhase, ReceiptPhase, ScheduleReceipt, p1, QueuePhase-discrete,
  ReceiptPhase-discrete,
}
use dockyard.Portfolio.Codec.{
  Line, escape, quote, digits_from, digits, scalar, field, conflict_lines, entry_lines,
  receipt_lines, same_lines,
}
use dockyard.Portfolio.Store.State.{
  SchedulerStore, TombstoneKind-discrete, put, put_generation, check_sequence, find_queue_entry,
  load_sequence, validate_receipt_binding, validate_tombstone_for_receipt, check_keys,
  ensure_entry_digest, ensure_receipt_digest, validate_entries, validate_queue_snapshot, load_queue,
  load_state, write_queue, write_sequence, replace_entry, update_entries,
}
use dockyard.Portfolio.Store.Queue.{
  check_event, check_existing, insert_entry, reserve_enqueue_sequence, store_entry,
  create_queue_entry, write_phase, move_entry, advance_queue_phase,
}
use dockyard.Portfolio.Store.Receipts.{
  write_receipt, write_tombstone, reserve, store_receipt, check_readable, check_unburied,
  check_phase, create_schedule_receipt, read_schedule_receipt, dispatched_receipt, check_advance,
  commit_advance, commit_checked, advance_schedule_receipt, bury, finalize_schedule_receipt,
  requeue, resume, recover_from, recover_selected_without_dispatch, finalized_tombstone,
  recovery_tombstone,
}

unfoldable pub program : Unit {0}
unfolding check_sequence find_queue_entry load_sequence validate_receipt_binding
    validate_tombstone_for_receipt check_keys ensure_entry_digest ensure_receipt_digest
    validate_entries validate_queue_snapshot load_queue load_state write_queue write_sequence
    replace_entry update_entries check_event check_existing insert_entry reserve_enqueue_sequence
    store_entry create_queue_entry write_phase move_entry advance_queue_phase write_receipt
    write_tombstone reserve store_receipt check_readable check_unburied check_phase
    create_schedule_receipt read_schedule_receipt dispatched_receipt check_advance commit_advance
    commit_checked advance_schedule_receipt bury finalize_schedule_receipt requeue resume
    recover_from recover_selected_without_dispatch escape quote digits_from digits scalar field
    conflict_lines entry_lines receipt_lines same_lines Sort.sort_by Sort.insert_by
    QueuePhase-discrete ReceiptPhase-discrete WorkerKind-discrete TombstoneKind-discrete ℕ_discrete
    String-discrete
program = tt

abbrev pub hash : List Line → String
hash lines = "sha256:0000000000000000000000000000000000000000000000000000000000000000"

abbrev pub entry : QueuePhase → ℕ → QueueEntry
entry phase generation = record {
  schema_version = "agentdesk.portfolio-scheduler/v1";
  queue_id = "Q-1";
  task_id = "TASK-1";
  revision = 1;
  enqueue_sequence = 1;
  enqueued_at = "2026-01-01T00:00:00Z";
  business_priority = p1;
  aging_basis_at = "2026-01-01T00:00:00Z";
  worker_kind_request = basic_agent;
  assessment_id = "ASM-1";
  state = phase;
  conflict_keys = [];
  retry_budget_used = 0;
  content_digest = "sha256:0000000000000000000000000000000000000000000000000000000000000000";
  selection_generation = generation;
}

abbrev pub receipt : ReceiptPhase → Option String → ScheduleReceipt
receipt phase event = record {
  schema_version = "agentdesk.portfolio-scheduler/v1";
  receipt_id = "SR-1";
  queue_id = "Q-1";
  task_id = "TASK-1";
  revision = 1;
  enqueue_sequence = 1;
  selected_at = "2026-01-01T00:01:00Z";
  order_key = record { priority_rank = 1; aging_rank = 0; sequence = 1; key_queue_id = "Q-1" };
  selection_reason = "P1:oldest_in_band:advisory_authorized:fifo";
  worker_kind = basic_agent;
  dispatch_event_id = event;
  phase = phase;
  content_digest = "sha256:0000000000000000000000000000000000000000000000000000000000000000";
  selection_generation = 1;
}

abbrev pub empty : SchedulerStore
empty = record {
  queue = [];
  sequence = none;
  receipts = λ id. none;
  tombstones = λ id. none;
  reservations = λ q g. none;
}

abbrev pub numbered : SchedulerStore
numbered = record empty { sequence = some (1, 1 ∷ []) }

abbrev pub waiting : SchedulerStore
waiting = record numbered { queue = entry QueuePhase.queued 1 ∷ [] }

abbrev pub picked : SchedulerStore
picked = record numbered { queue = entry QueuePhase.selected 1 ∷ [] }

abbrev pub planned : SchedulerStore
planned = record picked {
  receipts = put "SR-1" (receipt ReceiptPhase.selected none) (λ id. none);
  reservations = put_generation "Q-1" 1 (receipt ReceiptPhase.selected none) (λ q g. none);
}

abbrev pub event_id : String
event_id = "EV-1"

abbrev pub event : Option String
event = some event_id

abbrev pub announced : SchedulerStore
announced = record planned {
  receipts =
      put "SR-1" (receipt ReceiptPhase.dispatched event)
        (put "SR-1" (receipt ReceiptPhase.selected none) (λ id. none));
}

abbrev pub running : SchedulerStore
running = record announced { queue = entry QueuePhase.dispatched 1 ∷ [] }

abbrev pub buried : SchedulerStore
buried = record running {
  tombstones =
      put "SR-1"
        (finalized_tombstone (receipt ReceiptPhase.dispatched event) "2026-01-01T00:02:00Z")
        (λ id. none);
}

abbrev pub returned : SchedulerStore
returned = record planned {
  queue = entry QueuePhase.queued 2 ∷ [];
  tombstones =
      put "SR-1"
        (recovery_tombstone (entry QueuePhase.selected 1) 1 "SR-1"
          (receipt ReceiptPhase.selected none) "2026-01-01T00:02:00Z")
        (λ id. none);
}
