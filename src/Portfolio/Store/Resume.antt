-- ===== src/Portfolio/Store/Resume.antt =====
-- The recovery of a selection in skills/agentdesk/scripts/portfolio_scheduler_store.py,
-- whole and cut off between its two writes.
use dockyard.Base.{
  ℕ, suc, ◌≡◌, refl, ap, ◌∙◌, ◌==◌, comparable_number, comparable_string, String, true, false, ◌&&◌,
  List, none, some, returns, arith, ==-refl, guarded,
}
use dockyard.Portfolio.Entry.{
  QueueEntry, QueuePhase, ReceiptPhase, ScheduleReceipt, comparable_phase, comparable_receipt_phase,
}
use dockyard.CoreTypes.{comparable_kind}
use dockyard.Portfolio.Store.State.{
  SchedulerStore, load_state, load_queue, validate_queue_snapshot, validate_receipt_binding,
  validate_tombstone_for_receipt, receipt_queue_binding, TombstoneKind-discrete, find_queue_entry,
  replace_entry, update_entries,
}
use dockyard.Portfolio.Store.Receipts.{
  write_tombstone, recovery_tombstone, requeue, resume, recover_from,
  recover_selected_without_dispatch,
}
use dockyard.Portfolio.Store.Valid.{load_state-valid}
use dockyard.Portfolio.Store.Loadable.{IsLoadable}
use dockyard.Portfolio.Codec.{Line}
use dockyard.Portfolio.Store.Total.{replace-written}

module _ (hash : List Line → String) (s : SchedulerStore) (q id now : String) (e : QueueEntry)
    (r : ScheduleReceipt) where
  abbrev cut : SchedulerStore
  cut = write_tombstone s id (recovery_tombstone e e.selection_generation id r now)

  requeue-total :
      validate_queue_snapshot hash s.queue ≡ returns tt
      → find_queue_entry s.queue q ≡ returns e
      → requeue hash cut s.queue e
        ≡ returns (
          record cut {
            queue =
                update_entries hash e.queue_id
                  (replace_entry hash e QueuePhase.queued (suc e.selection_generation))
                  s.queue;
          },
          replace_entry hash e QueuePhase.queued (suc e.selection_generation),
        )
  unfolding requeue write_tombstone
  requeue-total valid found =
      rw
        (replace-written hash
          (write_tombstone s id (recovery_tombstone e e.selection_generation id r now)) q e
          QueuePhase.queued (suc e.selection_generation) valid found)
        refl

  recover-first :
      (t : SchedulerStore) (f : QueueEntry)
      → IsLoadable hash s
      → find_queue_entry s.queue q ≡ returns e
      → e.state ≡ QueuePhase.selected
      → s.receipts id ≡ some r
      → r.phase ≡ ReceiptPhase.selected
      → validate_receipt_binding r e ≡ returns tt
      → s.tombstones id ≡ none
      → requeue hash cut s.queue e ≡ returns (t, f)
      → recover_selected_without_dispatch hash s q e.selection_generation id now ≡ returns (t, f)
  unfolding recover_selected_without_dispatch recover_from IsLoadable
  recover-first t f (n, h) found state stored phase bound unburied written =
      let is_selected : (e.state == QueuePhase.selected) ≡ true =
        ap (λ x. x == QueuePhase.selected) state ∙ ==-refl QueuePhase.selected in
      let is_pending : (r.phase == ReceiptPhase.selected) ≡ true =
        ap (λ x. x == ReceiptPhase.selected) phase ∙ ==-refl ReceiptPhase.selected in
      rw
        (h, found, unburied, stored, bound, ==-refl e.selection_generation, is_selected, is_pending)
        written

  cut-loads :
      (n : ℕ × List ℕ)
      → load_state hash s ≡ returns (s.queue, n)
      → load_state hash cut ≡ returns (s.queue, n)
  unfolding load_state load_queue write_tombstone
  cut-loads n h = h

  cut-buried : cut.tombstones id ≡ some (recovery_tombstone e e.selection_generation id r now)
  unfolding write_tombstone
  cut-buried = rw (==-refl id) refl

  cut-receipts : s.receipts id ≡ some r → cut.receipts id ≡ some r
  unfolding write_tombstone
  cut-receipts h = h

  binding-names :
      validate_receipt_binding r e ≡ returns tt
      → (r.queue_id ≡ e.queue_id) × (r.selection_generation ≡ e.selection_generation)
  unfolding validate_receipt_binding
  binding-names h =
      let (bound, rest) =
        guarded
          (r.queue_id == e.queue_id
            && r.task_id == e.task_id
            && r.revision == e.revision
            && r.enqueue_sequence == e.enqueue_sequence
            && r.selection_generation == e.selection_generation
            && r.order_key.sequence == e.enqueue_sequence
            && r.order_key.key_queue_id == e.queue_id
            && r.worker_kind == e.worker_kind_request)
          receipt_queue_binding _ h in
      (ground (arith, bound), ground (arith, bound))

  tombstone-fits :
      r.receipt_id ≡ id
      → r.queue_id ≡ e.queue_id
      → r.selection_generation ≡ e.selection_generation
      → validate_tombstone_for_receipt (recovery_tombstone e e.selection_generation id r now) r
        ≡ returns tt
  unfolding validate_tombstone_for_receipt
  tombstone-fits own name generation =
      rw
        (
          own,
          name,
          generation,
          ==-refl id,
          ==-refl e.queue_id,
          ==-refl e.selection_generation,
          ==-refl r.content_digest,
        )
        refl

  recover-again :
      (t : SchedulerStore) (f : QueueEntry) (later : String)
      → IsLoadable hash s
      → find_queue_entry s.queue q ≡ returns e
      → e.state ≡ QueuePhase.selected
      → s.receipts id ≡ some r
      → r.receipt_id ≡ id
      → r.phase ≡ ReceiptPhase.selected
      → validate_receipt_binding r e ≡ returns tt
      → requeue hash cut s.queue e ≡ returns (t, f)
      → recover_selected_without_dispatch hash cut q e.selection_generation id later
        ≡ returns (t, f)
  unfolding recover_selected_without_dispatch recover_from resume IsLoadable TombstoneKind-discrete
  recover-again t f later (n, h) found state stored own phase bound written =
      let is_selected : (e.state == QueuePhase.selected) ≡ true =
        ap (λ x. x == QueuePhase.selected) state ∙ ==-refl QueuePhase.selected in
      let is_pending : (r.phase == ReceiptPhase.selected) ≡ true =
        ap (λ x. x == ReceiptPhase.selected) phase ∙ ==-refl ReceiptPhase.selected in
      let (queue_id, generation) = binding-names bound in
      let other : (e.selection_generation == suc e.selection_generation) ≡ false = ground (arith) in
      rw
        (
          cut-loads n h,
          found,
          cut-buried,
          cut-receipts stored,
          tombstone-fits own queue_id generation,
          bound,
          ==-refl e.selection_generation,
          ==-refl e.queue_id,
          ap (λ x. x == e.queue_id) queue_id ∙ ==-refl e.queue_id,
          ap (λ x. x == e.selection_generation) generation ∙ ==-refl e.selection_generation,
          other,
          is_selected,
          is_pending,
        )
        written

  -- On a store that _load_state accepts, with a selected entry and its selected receipt stored
  -- under its own id, bound to it and without a tombstone, recover_selected_without_dispatch
  -- returns the entry queued in the next generation; and a call at the store in which only the
  -- first write of that call, the tombstone, was made returns the same entry and leaves the same
  -- store.
  pub recover-resumes :
      (later : String)
      → IsLoadable hash s
      → find_queue_entry s.queue q ≡ returns e
      → e.state ≡ QueuePhase.selected
      → s.receipts id ≡ some r
      → r.receipt_id ≡ id
      → r.phase ≡ ReceiptPhase.selected
      → validate_receipt_binding r e ≡ returns tt
      → s.tombstones id ≡ none
      → (t : SchedulerStore) × (recover_selected_without_dispatch hash s q e.selection_generation id
            now
          ≡ returns (t, replace_entry hash e QueuePhase.queued (suc e.selection_generation)))
        × (recover_selected_without_dispatch hash
              (write_tombstone s id (recovery_tombstone e e.selection_generation id r now))
              q
              e.selection_generation
              id
              later
            ≡ returns (t, replace_entry hash e QueuePhase.queued (suc e.selection_generation)))
  unfolding IsLoadable
  recover-resumes later (n, h) found state stored own phase bound unburied =
      let (equal, valid, counted) = load_state-valid hash s s.queue n h in
      let written = requeue-total valid found in
      (
        _,
        recover-first _ _ (n, h) found state stored phase bound unburied written,
        recover-again _ _ later (n, h) found state stored own phase bound written,
      )
