-- ===== src/Portfolio/Store/History.antt =====
-- Histories of the store of skills/agentdesk/scripts/portfolio_scheduler_store.py: its operations,
-- one after another under the store's lock, in any order and with any arguments.
use dockyard.Base.{ℕ, ◌<◌, ◌≡◌, sym, ap, subst, String, List, Option, Attempt, returns, arith}
use dockyard.Portfolio.Entry.{QueueEntry, QueuePhase, ReceiptPhase, ScheduleReceipt}
use dockyard.Portfolio.Codec.{Line}
use dockyard.Portfolio.Store.State.{SchedulerStore, StoreError}
use dockyard.Portfolio.Store.Queue.{
  reserve_enqueue_sequence, create_queue_entry, advance_queue_phase,
}
use dockyard.Portfolio.Store.Receipts.{
  create_schedule_receipt, advance_schedule_receipt, finalize_schedule_receipt,
  recover_selected_without_dispatch,
}
use dockyard.Portfolio.Store.Admission.{AdmissionPlan, reserve_admission_selection}
use dockyard.Portfolio.Store.Admitted.{reserve_admission_selection-Written}
use dockyard.Portfolio.Store.Growth.{Grows, Grows-refl, Grows-trans, last_issued, sequence-Grows}
use dockyard.Portfolio.Store.Moves.{
  reserve_enqueue_sequence-returns, create_queue_entry-Grows, advance_queue_phase-Grows,
}
use dockyard.Portfolio.Store.Recover.{recover-Grows}
use dockyard.Portfolio.Store.Evidence.{
  create_schedule_receipt-Grows, advance_schedule_receipt-Grows, finalize_schedule_receipt-Grows,
}

module _ (hash : List Line → String) where
  -- One operation that returned; `advance_schedule_receipt` and `reserve_admission_selection`
  -- may write and raise. `retire_queue_entry` is `advance_queue_phase` to retired.
  pub data Step (s t : SchedulerStore) : Type 0 where
    reserved : (n : ℕ) → reserve_enqueue_sequence hash s ≡ returns (t, n) → Step s t
    created : (e f : QueueEntry) → create_queue_entry hash s e ≡ returns (t, f) → Step s t
    moved :
        (q : String) (g : ℕ) (p : QueuePhase) (event : Option String) (e : QueueEntry)
        → advance_queue_phase hash s q g p event ≡ returns (t, e)
        → Step s t
    selected :
        (r q : ScheduleReceipt) → create_schedule_receipt hash s r ≡ returns (t, q) → Step s t
    sent :
        (id : String) (g : ℕ) (p : ReceiptPhase) (event : Option String)
        → (advance_schedule_receipt hash s id g p event).0 ≡ t
        → Step s t
    closed :
        (id now : String) (r : ScheduleReceipt)
        → finalize_schedule_receipt hash s id now ≡ returns (t, r)
        → Step s t
    recovered :
        (q : String) (g : ℕ) (id now : String) (e : QueueEntry)
        → recover_selected_without_dispatch hash s q g id now ≡ returns (t, e)
        → Step s t
    admitted :
        (p : AdmissionPlan) (r : ScheduleReceipt)
        (validated planned : Attempt StoreError (Unit {0}))
        → (reserve_admission_selection hash s p r validated planned).0 ≡ t
        → Step s t

  pub data Reach (s : SchedulerStore) : SchedulerStore → Type 0 where
    here : Reach s s
    next : {t u : SchedulerStore} → Reach s t → Step t u → Reach s u

  reserve-counter :
      (s t : SchedulerStore) (n : ℕ) → reserve_enqueue_sequence hash s ≡ returns (t, n) → Grows s t
  reserve-counter s t n h =
      let (number, ns, made) = reserve_enqueue_sequence-returns hash s t n h in
      subst (λ u. Grows s u) (sym made) (sequence-Grows s n ns (ground (arith)))

  Step-Grows : (s t : SchedulerStore) → Step s t → Grows s t
  Step-Grows s t (reserved n h) = reserve-counter s t n h
  Step-Grows s t (created e f h) = create_queue_entry-Grows hash s e t f h
  Step-Grows s t (moved q g p event e h) = advance_queue_phase-Grows hash s q g p event t e h
  Step-Grows s t (selected r q h) = create_schedule_receipt-Grows hash s r t q h
  Step-Grows s t (sent id g p event h) =
      subst (λ u. Grows s u) h (advance_schedule_receipt-Grows hash s id g p event)
  Step-Grows s t (closed id now r h) = finalize_schedule_receipt-Grows hash s id now t r h
  Step-Grows s t (recovered q g id now e h) = recover-Grows hash s q g id now t e h
  Step-Grows s t (admitted p r validated planned h) =
      subst (λ u. Grows s u) h (reserve_admission_selection-Written hash s p r validated planned).0

  -- Whatever operations run in whatever order, with whatever arguments, from any store: every
  -- queue entry is still stored with the same queue id, task, revision and sequence number, in a
  -- later generation or in the same generation and no earlier phase; the counter has not gone
  -- back; every receipt is as it was or was selected and is now dispatched, for the same entry
  -- and generation; tombstones and reservations are unchanged.
  pub Reach-Grows : {s t : SchedulerStore} → Reach s t → Grows s t
  Reach-Grows here = Grows-refl _
  Reach-Grows (next before step) = Grows-trans _ _ _ (Reach-Grows before) (Step-Grows _ _ step)

  -- A sequence number that reserve_enqueue_sequence returns is greater than every number it
  -- returned in an earlier store of the same history.
  pub reserve_enqueue_sequence-increases :
      (s t u v : SchedulerStore) (n m : ℕ)
      → reserve_enqueue_sequence hash s ≡ returns (t, n)
      → Reach t u
      → reserve_enqueue_sequence hash u ≡ returns (v, m)
      → n < m
  reserve_enqueue_sequence-increases s t u v n m first later second =
      let (a, ns, made) = reserve_enqueue_sequence-returns hash s t n first in
      let (b, ms, kept) = reserve_enqueue_sequence-returns hash u v m second in
      let grown = (Reach-Grows later).counter in
      let counter : last_issued t.sequence ≡ n = ap (λ x. last_issued x.sequence) made in
      omega (arith, b, grown, counter)
