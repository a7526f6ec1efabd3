-- ===== src/Portfolio/Store/Receipts.antt =====
-- The operations on receipts of skills/agentdesk/scripts/portfolio_scheduler_store.py. Where an
-- operation writes before its last check, it gives the store beside the outcome.
use dockyard.Base.{
  ℕ, suc, ◌==◌, comparable_number, comparable_string, String, Bool, true, false, not, ◌&&◌, List,
  [], Option, none, some, if◌then◌else◌, Attempt, returns, raises, require, ◌>>=◌, ◌>>◌,
}
use dockyard.Portfolio.Entry.{
  QueueEntry, QueuePhase, ReceiptPhase, ScheduleReceipt, comparable_phase, comparable_receipt_phase,
}
use dockyard.Portfolio.Codec.{Line, receipt_lines}
use dockyard.Portfolio.Store.State.{
  StoreError, SchedulerStore, Tombstone, finalized, selected_recovery, comparable_tombstone,
  load_state, write_queue, find_queue_entry, or_missing, validate_receipt_binding,
  validate_tombstone_for_receipt, ensure_receipt_digest, same_receipt, put, put_generation,
  replace_entry, update_entries, receipt_create_phase, receipt_tombstoned, receipt_divergent_replay,
  reservation_divergent, receipt_missing, receipt_recovered, receipt_finalized_or_recovered,
  receipt_generation_stale, receipt_event_replay, receipt_phase_transition, dispatch_event_missing,
  receipt_not_dispatched, recovery_tombstone_conflict, recovery_receipt, recovery_receipt_binding,
  recovery_incomplete_state, recovery_state,
}

abbrev is_some : {A : Type 0} → Option A → Bool
is_some none = false
is_some (some a) = true

abbrev pub same_event : Option String → Option String → Bool
same_event none none = true
same_event (some a) (some b) = a == b
same_event _ _ = false

abbrev same_generation : ℕ → Option ℕ → Bool
same_generation g none = false
same_generation g (some h) = g == h

-- `reservation is None or reservation == encoded`
abbrev pub agrees : Option ScheduleReceipt → ScheduleReceipt → Bool
agrees none r = true
agrees (some q) r = same_receipt q r

unfoldable pub write_receipt : SchedulerStore → String → ScheduleReceipt → SchedulerStore
write_receipt s id r = record s { receipts = put id r s.receipts }

unfoldable pub write_tombstone : SchedulerStore → String → Tombstone → SchedulerStore
write_tombstone s id t = record s { tombstones = put id t s.tombstones }

-- The reservation of a receipt, written where there is none.
unfoldable pub reserve : SchedulerStore → ScheduleReceipt → SchedulerStore
reserve s r = elim (s.reservations r.queue_id r.selection_generation) [
  | none ↦ record s {
    reservations = put_generation r.queue_id r.selection_generation r s.reservations;
  }
  | some q ↦ s
]

abbrev pub finalized_tombstone : ScheduleReceipt → String → Tombstone
finalized_tombstone r created_at = record {
  kind = finalized;
  receipt_id = r.receipt_id;
  queue_id = r.queue_id;
  selection_generation = r.selection_generation;
  next_selection_generation = none;
  receipt_digest = r.content_digest;
  created_at = created_at;
}

abbrev pub recovery_tombstone : QueueEntry → ℕ → String → ScheduleReceipt → String → Tombstone
recovery_tombstone current generation id r created_at = record {
  kind = selected_recovery;
  receipt_id = id;
  queue_id = current.queue_id;
  selection_generation = generation;
  next_selection_generation = some (suc generation);
  receipt_digest = r.content_digest;
  created_at = created_at;
}

-- The two branches of `create_schedule_receipt` on an existing receipt.
unfoldable pub store_receipt :
    SchedulerStore
    → ScheduleReceipt
    → Option ScheduleReceipt
    → Attempt StoreError (SchedulerStore × ScheduleReceipt)
unfolding write_receipt reserve
store_receipt s r (some existing) = do
  require (same_receipt existing r) receipt_divergent_replay
  require (agrees (s.reservations r.queue_id r.selection_generation) r) reservation_divergent
  returns (reserve s r, existing)
store_receipt s r none = do
  require (agrees (s.reservations r.queue_id r.selection_generation) r) reservation_divergent
  returns (reserve (write_receipt s r.receipt_id r) r, r)

-- What a tombstone means for a reader.
unfoldable pub check_readable : Option Tombstone → ScheduleReceipt → Attempt StoreError (Unit {0})
unfolding validate_tombstone_for_receipt
check_readable none r = returns tt
check_readable (some t) r = do
  validate_tombstone_for_receipt t r
  require (not (t.kind == selected_recovery)) receipt_recovered

-- A tombstone ends the life of a receipt.
unfoldable pub check_unburied : Option Tombstone → ScheduleReceipt → Attempt StoreError (Unit {0})
unfolding validate_tombstone_for_receipt
check_unburied none r = returns tt
check_unburied (some t) r = do
  validate_tombstone_for_receipt t r
  raises receipt_finalized_or_recovered

-- A replay of the phase, or the dispatch.
unfoldable pub check_phase :
    ScheduleReceipt
    → ReceiptPhase
    → Option String
    → Attempt StoreError (ScheduleReceipt × Option String)
check_phase r new_phase event =
    if r.phase == new_phase
    then (do
      require
          (not (new_phase == ReceiptPhase.dispatched && not (same_event r.dispatch_event_id event)))
          receipt_event_replay
      require (not (new_phase == ReceiptPhase.selected && is_some event)) receipt_event_replay
      returns (r, none))
    else (do
      require (r.phase == ReceiptPhase.selected && new_phase == ReceiptPhase.dispatched)
          receipt_phase_transition
      e ← or_missing event dispatch_event_missing
      returns (r, some e))

module _ (hash : List Line → String) where
  unfoldable pub create_schedule_receipt :
      SchedulerStore → ScheduleReceipt → Attempt StoreError (SchedulerStore × ScheduleReceipt)
  unfolding ensure_receipt_digest load_state find_queue_entry validate_receipt_binding store_receipt
  create_schedule_receipt s r = do
    ensure_receipt_digest hash r
    require (r.phase == ReceiptPhase.selected) receipt_create_phase
    (entries, sequence) ← load_state hash s
    entry ← find_queue_entry entries r.queue_id
    validate_receipt_binding r entry
    require (not (is_some (s.tombstones r.receipt_id))) receipt_tombstoned
    store_receipt s r (s.receipts r.receipt_id)

  unfoldable pub read_schedule_receipt :
      SchedulerStore → String → Attempt StoreError ScheduleReceipt
  unfolding check_readable load_state find_queue_entry validate_receipt_binding
  read_schedule_receipt s id = do
    r ← or_missing (s.receipts id) receipt_missing
    check_readable (s.tombstones id) r
    (entries, sequence) ← load_state hash s
    entry ← find_queue_entry entries r.queue_id
    validate_receipt_binding r entry
    returns r

  -- `_replace_receipt` at the dispatch.
  unfoldable pub dispatched_receipt : ScheduleReceipt → String → ScheduleReceipt
  dispatched_receipt r event =
      let candidate : ScheduleReceipt = record r {
        phase = ReceiptPhase.dispatched;
        dispatch_event_id = some event;
      } in
      record candidate { content_digest = hash (receipt_lines candidate false []) }

  -- The checks of `advance_schedule_receipt` before its write, on a call that is not a replay, give
  -- the receipt as it is and the event; a replay gives no event.
  unfoldable pub check_advance :
      SchedulerStore
      → String
      → ℕ
      → ReceiptPhase
      → Option String
      → Attempt StoreError (ScheduleReceipt × Option String)
  unfolding check_unburied load_state find_queue_entry validate_receipt_binding check_phase
  check_advance s id generation new_phase event = do
    r ← or_missing (s.receipts id) receipt_missing
    check_unburied (s.tombstones id) r
    require (r.selection_generation == generation) receipt_generation_stale
    (entries, sequence) ← load_state hash s
    entry ← find_queue_entry entries r.queue_id
    validate_receipt_binding r entry
    check_phase r new_phase event

  -- The write of `advance_schedule_receipt`, which the check of the reservation follows.
  unfoldable pub commit_advance :
      SchedulerStore
      → String
      → ScheduleReceipt
      → Option String
      → SchedulerStore × Attempt StoreError ScheduleReceipt
  unfolding write_receipt dispatched_receipt
  commit_advance s id r none = (s, returns r)
  commit_advance s id r (some event) = (
    write_receipt s id (dispatched_receipt r event),
    (do
      require (agrees (s.reservations r.queue_id r.selection_generation) r) reservation_divergent
      returns (dispatched_receipt r event)),
  )

  unfoldable pub commit_checked :
      SchedulerStore
      → String
      → Attempt StoreError (ScheduleReceipt × Option String)
      → SchedulerStore × Attempt StoreError ScheduleReceipt
  unfolding commit_advance
  commit_checked s id (raises e) = (s, raises e)
  commit_checked s id (returns (r, event)) = commit_advance s id r event

  unfoldable pub advance_schedule_receipt :
      SchedulerStore
      → String
      → ℕ
      → ReceiptPhase
      → Option String
      → SchedulerStore × Attempt StoreError ScheduleReceipt
  unfolding check_advance commit_checked
  advance_schedule_receipt s id generation new_phase event =
      commit_checked s id (check_advance s id generation new_phase event)

  -- The end of `finalize_schedule_receipt`: an existing tombstone, or a new one.
  unfoldable pub bury :
      SchedulerStore
      → String
      → String
      → ScheduleReceipt
      → Option Tombstone
      → Attempt StoreError (SchedulerStore × ScheduleReceipt)
  unfolding validate_tombstone_for_receipt write_tombstone
  bury s id created_at r (some t) = do
    validate_tombstone_for_receipt t r
    require (t.kind == finalized) receipt_recovered
    returns (s, r)
  bury s id created_at r none = returns (write_tombstone s id (finalized_tombstone r created_at), r)

  -- The time `_utc_now()` is an argument.
  unfoldable pub finalize_schedule_receipt :
      SchedulerStore → String → String → Attempt StoreError (SchedulerStore × ScheduleReceipt)
  unfolding load_state find_queue_entry validate_receipt_binding bury
  finalize_schedule_receipt s id created_at = do
    r ← or_missing (s.receipts id) receipt_missing
    (entries, sequence) ← load_state hash s
    entry ← find_queue_entry entries r.queue_id
    validate_receipt_binding r entry
    require (r.phase == ReceiptPhase.dispatched) receipt_not_dispatched
    bury s id created_at r (s.tombstones id)

  -- The return to the queue with the next generation.
  unfoldable pub requeue :
      SchedulerStore
      → List QueueEntry
      → QueueEntry
      → Attempt StoreError (SchedulerStore × QueueEntry)
  unfolding write_queue replace_entry update_entries
  requeue s entries current = do
    let updated = replace_entry hash current QueuePhase.queued (suc current.selection_generation)
    t ← write_queue hash s (update_entries hash current.queue_id updated entries)
    returns (t, updated)

  -- A recovery that was done before, or was cut off between its two writes.
  unfoldable pub resume :
      SchedulerStore
      → List QueueEntry
      → QueueEntry
      → ℕ
      → ScheduleReceipt
      → Tombstone
      → Attempt StoreError (SchedulerStore × QueueEntry)
  unfolding validate_receipt_binding requeue
  resume s entries current generation r t =
      if same_generation current.selection_generation t.next_selection_generation
        && current.state == QueuePhase.queued
      then returns (s, current)
      else (do
        require (current.selection_generation == generation && current.state == QueuePhase.selected)
            recovery_incomplete_state
        validate_receipt_binding r current
        requeue s entries current)

  -- The two branches of `recover_selected_without_dispatch` on the tombstone.
  unfoldable pub recover_from :
      SchedulerStore
      → List QueueEntry
      → QueueEntry
      → ℕ
      → String
      → String
      → Option Tombstone
      → Attempt StoreError (SchedulerStore × QueueEntry)
  unfolding validate_tombstone_for_receipt validate_receipt_binding write_tombstone requeue resume
  recover_from s entries current generation id created_at (some t) = do
    require
        (t.kind == selected_recovery
          && t.queue_id == current.queue_id
          && t.selection_generation == generation)
        recovery_tombstone_conflict
    r ← or_missing (s.receipts id) recovery_receipt
    require (r.phase == ReceiptPhase.selected) recovery_receipt
    validate_tombstone_for_receipt t r
    require (r.queue_id == current.queue_id && r.selection_generation == generation)
        recovery_receipt_binding
    resume s entries current generation r t
  recover_from s entries current generation id created_at none = do
    require (current.selection_generation == generation && current.state == QueuePhase.selected)
        recovery_state
    r ← or_missing (s.receipts id) recovery_receipt
    require (r.phase == ReceiptPhase.selected) recovery_receipt
    validate_receipt_binding r current
    requeue (write_tombstone s id (recovery_tombstone current generation id r created_at)) entries
        current

  unfoldable pub recover_selected_without_dispatch :
      SchedulerStore
      → String
      → ℕ
      → String
      → String
      → Attempt StoreError (SchedulerStore × QueueEntry)
  unfolding load_state find_queue_entry recover_from
  recover_selected_without_dispatch s q generation id created_at = do
    (entries, sequence) ← load_state hash s
    current ← find_queue_entry entries q
    recover_from s entries current generation id created_at (s.tombstones id)
