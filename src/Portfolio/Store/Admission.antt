-- ===== src/Portfolio/Store/Admission.antt =====
-- `reserve_admission_selection` of skills/agentdesk/scripts/portfolio_scheduler_store.py, which
-- selects an entry for an admission plan. The plan's own validation and its file, which stands in a
-- directory that no other modelled operation reads, are two arguments.
use dockyard.Base.{
  ℕ, ◌==◌, comparable_number, comparable_string, String, ◌&&◌, ◌||◌, List, Option, none, some,
  if◌then◌else◌, Attempt, returns, raises, require, ◌>>=◌, ◌>>◌,
}
use dockyard.CoreTypes.{WorkerKind, comparable_kind}
use dockyard.Portfolio.Entry.{
  QueueEntry, QueuePhase, ReceiptPhase, ScheduleReceipt, comparable_phase, comparable_receipt_phase,
}
use dockyard.Portfolio.Codec.{Line}
use dockyard.Portfolio.Store.State.{
  StoreError, SchedulerStore, load_state, write_queue, find_queue_entry, ensure_receipt_digest,
  same_receipt, replace_entry, update_entries, receipt_divergent_replay, reservation_divergent,
  queue_generation_stale, selection_receipt_phase, selection_queue_phase, plan_selection_binding,
}
use dockyard.Portfolio.Store.Receipts.{agrees, write_receipt, reserve}

-- The fields of an `AdmissionPlanReservation` that name its entry and its receipt.
pub record AdmissionPlan : Type 0 where
  pub queue_id : String
  pub receipt_id : String
  pub task_id : String
  pub revision : ℕ
  pub enqueue_sequence : ℕ
  pub selection_generation : ℕ
  pub worker_kind : WorkerKind
  pub assessment_id : String

-- `_validate_plan_receipt_binding` with `allow_queued_entry`, for an entry that is queued or
-- selected.
unfoldable pub validate_plan_binding :
    AdmissionPlan → ScheduleReceipt → QueueEntry → Attempt StoreError (Unit {0})
validate_plan_binding p r e =
    require
      (p.queue_id == e.queue_id
        && p.task_id == e.task_id
        && p.revision == e.revision
        && p.enqueue_sequence == e.enqueue_sequence
        && p.selection_generation == e.selection_generation
        && p.worker_kind == e.worker_kind_request
        && p.assessment_id == e.assessment_id
        && r.receipt_id == p.receipt_id
        && r.queue_id == p.queue_id
        && r.task_id == p.task_id
        && r.revision == p.revision
        && r.enqueue_sequence == p.enqueue_sequence
        && r.selection_generation == p.selection_generation
        && r.worker_kind == p.worker_kind
        && r.phase == ReceiptPhase.selected)
      plan_selection_binding

-- The receipt that is stored, or written where there is none.
unfoldable pub select_receipt :
    SchedulerStore
    → ScheduleReceipt
    → Option ScheduleReceipt
    → SchedulerStore × Attempt StoreError ScheduleReceipt
unfolding write_receipt
select_receipt s r none = (write_receipt s r.receipt_id r, returns r)
select_receipt s r (some existing) =
    (s, (do require (same_receipt existing r) receipt_divergent_replay; returns existing))

abbrev pub commit_queue :
    SchedulerStore
    → ScheduleReceipt
    → QueueEntry
    → Attempt StoreError SchedulerStore
    → SchedulerStore × Attempt StoreError (ScheduleReceipt × QueueEntry)
commit_queue t durable updated (raises e) = (t, raises e)
commit_queue t durable updated (returns u) = (u, returns (durable, updated))

module _ (hash : List Line → String) where
  -- The checks before the first write to the queue, the receipts or the reservations. `validated`
  -- is what the validation of the plan's fields and digest comes to, `planned` what
  -- `_reserve_admission_plan_locked` does.
  unfoldable pub check_selection :
      SchedulerStore
      → AdmissionPlan
      → ScheduleReceipt
      → Attempt StoreError (Unit {0})
      → Attempt StoreError (Unit {0})
      → Attempt StoreError (List QueueEntry × QueueEntry)
  unfolding ensure_receipt_digest load_state find_queue_entry validate_plan_binding
  check_selection s p r validated planned = do
    validated
    ensure_receipt_digest hash r
    require (r.phase == ReceiptPhase.selected) selection_receipt_phase
    (entries, sequence) ← load_state hash s
    current ← find_queue_entry entries p.queue_id
    require (current.state == QueuePhase.queued || current.state == QueuePhase.selected)
        selection_queue_phase
    require (current.selection_generation == p.selection_generation) queue_generation_stale
    validate_plan_binding p r current
    planned
    returns (entries, current)

  -- A queued entry becomes selected.
  unfoldable pub mark_selected :
      SchedulerStore
      → ScheduleReceipt
      → List QueueEntry
      → QueueEntry
      → SchedulerStore × Attempt StoreError (ScheduleReceipt × QueueEntry)
  unfolding write_queue replace_entry update_entries
  mark_selected t durable entries current =
      let updated = replace_entry hash current QueuePhase.selected current.selection_generation in
      if current.state == QueuePhase.queued
      then commit_queue t durable updated
          (write_queue hash t (update_entries hash current.queue_id updated entries))
      else (t, returns (durable, current))

  -- The reservation, and then the queue.
  unfoldable pub finish_selection :
      SchedulerStore
      → ScheduleReceipt
      → List QueueEntry
      → QueueEntry
      → Attempt StoreError ScheduleReceipt
      → SchedulerStore × Attempt StoreError (ScheduleReceipt × QueueEntry)
  unfolding reserve mark_selected
  finish_selection t r entries current (raises e) = (t, raises e)
  finish_selection t r entries current (returns durable) =
      if agrees (t.reservations r.queue_id r.selection_generation) r
      then mark_selected (reserve t r) durable entries current
      else (t, raises reservation_divergent)

  unfoldable pub select_checked :
      SchedulerStore
      → ScheduleReceipt
      → Attempt StoreError (List QueueEntry × QueueEntry)
      → SchedulerStore × Attempt StoreError (ScheduleReceipt × QueueEntry)
  unfolding select_receipt finish_selection
  select_checked s r (raises e) = (s, raises e)
  select_checked s r (returns (entries, current)) =
      let (t, durable) = select_receipt s r (s.receipts r.receipt_id) in
      finish_selection t r entries current durable

  -- `reserve_admission_selection`, without the plan among its results
  unfoldable pub reserve_admission_selection :
      SchedulerStore
      → AdmissionPlan
      → ScheduleReceipt
      → Attempt StoreError (Unit {0})
      → Attempt StoreError (Unit {0})
      → SchedulerStore × Attempt StoreError (ScheduleReceipt × QueueEntry)
  unfolding check_selection select_checked
  reserve_admission_selection s p r validated planned =
      select_checked s r (check_selection s p r validated planned)
