-- ===== src/Portfolio/Store/Sound.antt =====
-- `_load_state` of skills/agentdesk/scripts/portfolio_scheduler_store.py along a
-- history.
use dockyard.Base.{
  ℕ, refl, sym, subst, ◌∙◌, comparable_number, comparable_string, String, List, Option, none, some,
  Attempt, returns, raises, inl, inr,
}
use dockyard.Portfolio.Entry.{
  ReceiptPhase, ScheduleReceipt, comparable_phase, comparable_receipt_phase,
}
use dockyard.Portfolio.Codec.{Line}
use dockyard.Portfolio.Store.State.{StoreError, SchedulerStore}
use dockyard.Portfolio.Store.Receipts.{
  write_receipt, write_tombstone, reserve, advance_schedule_receipt, commit_checked, commit_advance,
  dispatched_receipt, check_advance,
}
use dockyard.Portfolio.Store.Loadable.{Write, IsLoadable, Write-IsLoadable}
use dockyard.Portfolio.Store.Writes.{
  advance_queue_phase-Write, recover-Write, create_queue_entry-Write,
  reserve_enqueue_sequence-Write,
}
use dockyard.Portfolio.Store.Evidence.{
  create_schedule_receipt-cases, finalize_schedule_receipt-cases,
}
use dockyard.Portfolio.Store.Admitted.{
  SameFiles, reserve-SameFiles, write_receipt-SameFiles, write_tombstone-SameFiles, files-Write,
  reserve_admission_selection-Written,
}
use dockyard.Portfolio.Store.History.{
  Step, Reach, reserved, created, moved, selected, sent, closed, recovered, admitted, here, next,
}

module _ (hash : List Line → String) where
  commit-SameFiles :
      (s : SchedulerStore) (id : String) (m : Attempt StoreError (ScheduleReceipt × Option String))
      → SameFiles s (commit_checked hash s id m).0
  unfolding commit_checked commit_advance
  commit-SameFiles s id (raises e) = (refl, refl)
  commit-SameFiles s id (returns (r, none)) = (refl, refl)
  commit-SameFiles s id (returns (r, some x)) =
      write_receipt-SameFiles s id (dispatched_receipt hash r x)

  advance-SameFiles :
      (s : SchedulerStore) (id : String) (g : ℕ) (p : ReceiptPhase) (event : Option String)
      → SameFiles s (advance_schedule_receipt hash s id g p event).0
  unfolding advance_schedule_receipt
  advance-SameFiles s id g p event = commit-SameFiles s id (check_advance hash s id g p event)

  Step-Write : (s t : SchedulerStore) → Step hash s t → Write hash s t
  Step-Write s t (reserved n h) = reserve_enqueue_sequence-Write hash s t n h
  Step-Write s t (created e f h) = create_queue_entry-Write hash s e t f h
  Step-Write s t (moved q g p event e h) = advance_queue_phase-Write hash s q g p event t e h
  Step-Write s t (selected r q h) = elim (create_schedule_receipt-cases hash s r t q h) [
    | inl made ↦ files-Write hash s (reserve s r) t made (reserve-SameFiles s r)
    | inr (absent, made) ↦
        let (q₁, c₁) = write_receipt-SameFiles s r.receipt_id r in
        let (q₂, c₂) = reserve-SameFiles (write_receipt s r.receipt_id r) r in
        files-Write hash s (reserve (write_receipt s r.receipt_id r) r) t made (q₂ ∙ q₁, c₂ ∙ c₁)
  ]
  Step-Write s t (sent id g p event h) =
      files-Write hash s (advance_schedule_receipt hash s id g p event).0 t (sym h)
        (advance-SameFiles s id g p event)
  Step-Write s t (closed id now r h) = elim (finalize_schedule_receipt-cases hash s id now t r h) [
    | inl equal ↦ files-Write hash s s t equal (refl, refl)
    | inr (absent, x, made) ↦
        files-Write hash s (write_tombstone s id x) t made (write_tombstone-SameFiles s id x)
  ]
  Step-Write s t (recovered q g id now e h) = recover-Write hash s q g id now t e h
  Step-Write s t (admitted p r validated planned h) =
      subst (λ u. Write hash s u) h
        (reserve_admission_selection-Written hash s p r validated planned).1

  -- Whatever operations run in whatever order, with whatever arguments, a store whose queue and
  -- counter _load_state accepts becomes one that it accepts.
  pub Reach-IsLoadable :
      {s t : SchedulerStore} → Reach hash s t → IsLoadable hash s → IsLoadable hash t
  Reach-IsLoadable here l = l
  Reach-IsLoadable (next before step) l =
      Write-IsLoadable hash _ _ (Step-Write _ _ step) (Reach-IsLoadable before l)
