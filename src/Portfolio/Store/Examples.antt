-- ===== src/Portfolio/Store/Examples.antt =====
-- One task from the empty store through its dispatch, and one that is recovered before it.
use dockyard.Base.{
  ℕ, ◌<◌, true, ◌≡◌, ◌≢◌, refl, String, List, [], ◌∷◌, Option, some, none, returns,
  comparable_number, comparable_string,
}
use dockyard.Portfolio.Entry.{QueuePhase, ReceiptPhase, ScheduleReceipt}
use dockyard.Portfolio.Store.State.{
  SchedulerStore, find_queue_entry, validate_receipt_binding, replace_entry, update_entries,
}
use dockyard.Portfolio.Store.Queue.{
  check_event, reserve_enqueue_sequence, create_queue_entry, advance_queue_phase,
}
use dockyard.Portfolio.Store.Receipts.{
  write_tombstone, create_schedule_receipt, read_schedule_receipt, advance_schedule_receipt,
  finalize_schedule_receipt, recover_selected_without_dispatch, recovery_tombstone,
}
use dockyard.Portfolio.Store.Growth.{Grows}
use dockyard.Portfolio.Store.History.{
  Reach, here, next, created, moved, selected, sent, closed, Reach-Grows,
  reserve_enqueue_sequence-increases,
}
use dockyard.Portfolio.Store.Once.{Refused, recover-final, advance_schedule_receipt-once}
use dockyard.Portfolio.Store.Samples.{
  program, hash, entry, receipt, empty, numbered, waiting, picked, planned, event_id, event,
  announced, running, buried, returned,
}
use dockyard.Base.Documents
use dockyard.Portfolio.Store.Admission.{
  AdmissionPlan, validate_plan_binding, check_selection, select_receipt, mark_selected,
  finish_selection, select_checked, reserve_admission_selection,
}
use dockyard.Portfolio.Codec.{text}
use dockyard.Portfolio.Store.Counter.{
  encode_sequence, decode_sequence, sequence_lines, decode_sequence-encode_sequence,
}
use dockyard.Portfolio.Store.Sound.{Reach-IsLoadable}
use dockyard.Portfolio.Store.Loadable.{IsLoadable}
use dockyard.Portfolio.Store.Queue.{follows}
use dockyard.Portfolio.Store.Total.{advance_queue_phase-total}
use dockyard.Portfolio.Store.Resume.{recover-resumes}

first_number : reserve_enqueue_sequence hash empty ≡ returns (numbered, 1)
unfolding program
first_number = refl

enqueued :
    create_queue_entry hash numbered (entry QueuePhase.queued 1)
    ≡ returns (waiting, entry QueuePhase.queued 1)
unfolding program
enqueued = refl

picking :
    advance_queue_phase hash waiting "Q-1" 1 QueuePhase.selected none
    ≡ returns (picked, entry QueuePhase.selected 1)
unfolding program
picking = refl

planning :
    create_schedule_receipt hash picked (receipt ReceiptPhase.selected none)
    ≡ returns (planned, receipt ReceiptPhase.selected none)
unfolding program
planning = refl

abbrev plan : AdmissionPlan
plan =
    let r = receipt ReceiptPhase.selected none in
    record {
      queue_id = "Q-1";
      receipt_id = "SR-1";
      task_id = r.task_id;
      revision = r.revision;
      enqueue_sequence = 1;
      selection_generation = 1;
      worker_kind = r.worker_kind;
      assessment_id = (entry QueuePhase.queued 1).assessment_id;
    }

-- In place of `picking` and `planning`.
admitting :
    reserve_admission_selection hash waiting plan
      (receipt ReceiptPhase.selected none)
      (returns tt)
      (returns tt)
    ≡ (planned, returns (receipt ReceiptPhase.selected none, entry QueuePhase.selected 1))
unfolding program reserve_admission_selection check_selection validate_plan_binding select_checked
    select_receipt finish_selection mark_selected
admitting = refl

announcing :
    advance_schedule_receipt hash planned "SR-1" 1 ReceiptPhase.dispatched event
    ≡ (announced, returns (receipt ReceiptPhase.dispatched event))
unfolding program
announcing = refl

starting :
    advance_queue_phase hash announced "Q-1" 1 QueuePhase.dispatched event
    ≡ returns (running, entry QueuePhase.dispatched 1)
unfolding program
starting = refl

finishing :
    finalize_schedule_receipt hash running "SR-1" "2026-01-01T00:02:00Z"
    ≡ returns (buried, receipt ReceiptPhase.dispatched event)
unfolding program
finishing = refl

returning :
    recover_selected_without_dispatch hash planned "Q-1" 1 "SR-1" "2026-01-01T00:02:00Z"
    ≡ returns (returned, entry QueuePhase.queued 2)
unfolding program
returning = refl

announcing_store :
    (advance_schedule_receipt hash planned "SR-1" 1 ReceiptPhase.dispatched event).0 ≡ announced
unfolding program
announcing_store = refl

announcing_result :
    (advance_schedule_receipt hash planned "SR-1" 1 ReceiptPhase.dispatched event).1
    ≡ returns (receipt ReceiptPhase.dispatched event)
unfolding program
announcing_result = refl

repeated :
    (advance_schedule_receipt hash running "SR-1" 1 ReceiptPhase.dispatched event).1
    ≡ returns (receipt ReceiptPhase.dispatched event)
unfolding program
repeated = refl

announced_later :
    (advance_schedule_receipt hash planned "SR-1" 1 ReceiptPhase.dispatched event).0 ≡ announced
    → Reach hash
        (advance_schedule_receipt hash planned "SR-1" 1 ReceiptPhase.dispatched event).0
        running
announced_later same =
    next here
      (moved "Q-1" 1 QueuePhase.dispatched event (entry QueuePhase.dispatched 1) (rw same starting))

whole_run : Reach hash waiting buried
whole_run =
    next
      (next
        (next
          (next (next here (moved "Q-1" 1 QueuePhase.selected none _ picking))
            (selected _ _ planning))
          (sent "SR-1" 1 ReceiptPhase.dispatched event announcing_store))
        (moved "Q-1" 1 QueuePhase.dispatched event _ starting))
      (closed "SR-1" "2026-01-01T00:02:00Z" _ finishing)

Reach-Grows_example : Grows waiting buried
Reach-Grows_example = Reach-Grows hash whole_run

second_number :
    reserve_enqueue_sequence hash waiting
    ≡ returns (record waiting { sequence = some (2, 1 ∷ 2 ∷ []) }, 2)
unfolding program
second_number = refl

reserve_enqueue_sequence-increases_example : 1 < 2
reserve_enqueue_sequence-increases_example =
    reserve_enqueue_sequence-increases hash empty numbered waiting
      (record waiting { sequence = some (2, 1 ∷ 2 ∷ []) }) 1 2 first_number
      (next here (created _ _ enqueued)) second_number

recover-final_example :
    ((h : ℕ) (p : ReceiptPhase) (event : Option String)
      → Refused returned (advance_schedule_receipt hash returned "SR-1" h p event))
    × ((r : ScheduleReceipt) → read_schedule_receipt hash returned "SR-1" ≢ returns r)
recover-final_example =
    recover-final hash planned returned returned "Q-1" 1 "SR-1" "2026-01-01T00:02:00Z"
      (entry QueuePhase.queued 2) returning here

advance_schedule_receipt-once_example :
    (event_id ≡ event_id)
    × (receipt ReceiptPhase.dispatched event ≡ receipt ReceiptPhase.dispatched event)
    × ((advance_schedule_receipt hash running "SR-1" 1 ReceiptPhase.dispatched event).0 ≡ running)
advance_schedule_receipt-once_example =
    advance_schedule_receipt-once hash planned running "SR-1" "EV-1" "EV-1" 1 1
      (receipt ReceiptPhase.dispatched event) (receipt ReceiptPhase.dispatched event)
      announcing_result (announced_later announcing_store) repeated

waiting-IsLoadable : IsLoadable hash waiting
unfolding program IsLoadable
waiting-IsLoadable = ((1, 1 ∷ []), refl)

planned-IsLoadable : IsLoadable hash planned
unfolding program IsLoadable
planned-IsLoadable = ((1, 1 ∷ []), refl)

stored :
    (phase : QueuePhase) → find_queue_entry (entry phase 1 ∷ []) "Q-1" ≡ returns (entry phase 1)
unfolding program
stored phase = refl

expected : check_event QueuePhase.selected none ≡ returns tt
unfolding program
expected = refl

allowed : follows QueuePhase.queued QueuePhase.selected ≡ true
unfolding program
allowed = refl

bound :
    validate_receipt_binding (receipt ReceiptPhase.selected none) (entry QueuePhase.selected 1)
    ≡ returns tt
unfolding program
bound = refl

planned_receipt : planned.receipts "SR-1" ≡ some (receipt ReceiptPhase.selected none)
unfolding program
planned_receipt = refl

Reach-IsLoadable_example : IsLoadable hash buried
Reach-IsLoadable_example = Reach-IsLoadable hash whole_run waiting-IsLoadable

advance_queue_phase-total_example :
    advance_queue_phase hash waiting "Q-1" 1 QueuePhase.selected none
    ≡ returns (
      record waiting {
        queue =
            update_entries hash "Q-1"
              (replace_entry hash (entry QueuePhase.queued 1) QueuePhase.selected 1)
              (entry QueuePhase.queued 1 ∷ []);
      },
      replace_entry hash (entry QueuePhase.queued 1) QueuePhase.selected 1,
    )
advance_queue_phase-total_example =
    advance_queue_phase-total hash waiting "Q-1" (entry QueuePhase.queued 1) QueuePhase.selected
      none waiting-IsLoadable (stored QueuePhase.queued) allowed expected

recover-resumes_example :
    (t : SchedulerStore) × (recover_selected_without_dispatch hash planned "Q-1" 1 "SR-1"
        "2026-01-01T00:02:00Z"
      ≡ returns (t, replace_entry hash (entry QueuePhase.selected 1) QueuePhase.queued 2))
    × (recover_selected_without_dispatch hash
          (write_tombstone planned "SR-1" (
            recovery_tombstone
              (entry QueuePhase.selected 1)
              1
              "SR-1"
              (receipt ReceiptPhase.selected none)
              "2026-01-01T00:02:00Z"))
          "Q-1"
          1
          "SR-1"
          "2026-01-01T00:03:00Z"
        ≡ returns (t, replace_entry hash (entry QueuePhase.selected 1) QueuePhase.queued 2))
recover-resumes_example =
    recover-resumes hash planned "Q-1" "SR-1" "2026-01-01T00:02:00Z" (entry QueuePhase.selected 1)
      (receipt ReceiptPhase.selected none) "2026-01-01T00:03:00Z" planned-IsLoadable
      (stored QueuePhase.selected) refl planned_receipt refl refl bound refl

abbrev two_file : List ℕ
two_file =
    text
      "schema_version: \"agentdesk.portfolio-scheduler/v1\"\nlast_issued_enqueue_sequence: 2\nreserved_sequences:\n  - 1\n  - 2\n"

two_numbers : encode_sequence 2 (1 ∷ 2 ∷ []) ≡ returns two_file
unfolding program encode_sequence sequence_lines Documents.finish Documents.joined
two_numbers = refl

decode_sequence-encode_sequence_example : decode_sequence two_file ≡ returns (2, 1 ∷ 2 ∷ [])
decode_sequence-encode_sequence_example =
    decode_sequence-encode_sequence 2 (1 ∷ 2 ∷ []) two_file two_numbers
