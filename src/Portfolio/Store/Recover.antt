-- ===== src/Portfolio/Store/Recover.antt =====
-- What the recovery of a selection in skills/agentdesk/scripts/portfolio_scheduler_store.py writes.
use dockyard.Base.{
  ℕ, suc, ◌≡◌, refl, sym, ap, subst, ◌∙◌, ◌==◌, comparable_number, comparable_string, String, ◌&&◌,
  List, Option, none, some, returns, require, past, peel, guarded, arith, inl, inr, ◌⊎◌, ==-refl,
}
use dockyard.Portfolio.Entry.{
  QueueEntry, QueuePhase, ReceiptPhase, ScheduleReceipt, comparable_phase, comparable_receipt_phase,
}
use dockyard.Portfolio.Codec.{Line}
use dockyard.Portfolio.Store.State.{
  SchedulerStore, Tombstone, recovery_receipt, recovery_state, recovery_tombstone_conflict,
  recovery_receipt_binding, selected_recovery, comparable_tombstone, validate_tombstone_for_receipt,
  write_queue, validate_receipt_binding, replace_entry, update_entries, or_missing,
}
use dockyard.Portfolio.Store.Receipts.{
  write_tombstone, recovery_tombstone, requeue, resume, recover_from,
  recover_selected_without_dispatch,
}
use dockyard.Portfolio.Store.Growth.{Grows, Grows-refl, Grows-trans, write_tombstone-Grows}
use dockyard.Portfolio.Store.Moves.{Found, with_entry, replace-Grows, write_queue-returns}

module _ (hash : List Line → String) where
  requeue-Grows :
      (s : SchedulerStore) (entries : List QueueEntry) (e : QueueEntry) (t : SchedulerStore)
      (f : QueueEntry)
      → Found s entries e
      → requeue hash s entries e ≡ returns (t, f)
      → Grows s t
  unfolding requeue
  requeue-Grows s entries e t f found h =
      let (u, written, k) =
        peel
          (write_queue hash s (
            update_entries hash e.queue_id
              (replace_entry hash e QueuePhase.queued (suc e.selection_generation)) entries))
          _ (t, f) h in
      replace-Grows hash s entries e QueuePhase.queued (suc e.selection_generation) t found
        (inl (omega arith)) (written ∙ ground (arith))

  resume-cases :
      (s : SchedulerStore) (entries : List QueueEntry) (e : QueueEntry) (g : ℕ)
      (r : ScheduleReceipt) (x : Tombstone) (t : SchedulerStore) (f : QueueEntry)
      → resume hash s entries e g r x ≡ returns (t, f)
      → (t ≡ s) ⊎ (requeue hash s entries e ≡ returns (t, f))
  unfolding resume
  resume-cases s entries e g r x t f h = ground (arith)

  pub recover_from-cases :
      (s : SchedulerStore) (entries : List QueueEntry) (e : QueueEntry) (g : ℕ) (id now : String)
      (o : Option Tombstone) (t : SchedulerStore) (f : QueueEntry)
      → recover_from hash s entries e g id now o ≡ returns (t, f)
      → (t ≡ s)
        ⊎ ((requeue hash s entries e ≡ returns (t, f))
            ⊎ ((o ≡ none)
                × (x : Tombstone) × (requeue hash (write_tombstone s id x) entries e
                    ≡ returns (t, f))))
  unfolding recover_from
  recover_from-cases s entries e g id now none t f h =
      let (r, found, k) =
        peel (or_missing (s.receipts id) recovery_receipt) _ (t, f)
          (past
            (require (e.selection_generation == g && e.state == QueuePhase.selected) recovery_state)
            _ (t, f) h) in
      let k₁ = past (require (r.phase == ReceiptPhase.selected) recovery_receipt) _ (t, f) k in
      let k₂ = past (validate_receipt_binding r e) _ (t, f) k₁ in inr (inr (refl, _, k₂))
  recover_from-cases s entries e g id now (some x) t f h =
      let k =
        past
          (require
            (x.kind == selected_recovery && x.queue_id == e.queue_id && x.selection_generation == g)
            recovery_tombstone_conflict)
          _ (t, f) h in
      let (r, found, k₁) = peel (or_missing (s.receipts id) recovery_receipt) _ (t, f) k in
      let k₂ = past (require (r.phase == ReceiptPhase.selected) recovery_receipt) _ (t, f) k₁ in
      let k₃ = past (validate_tombstone_for_receipt x r) _ (t, f) k₂ in
      let k₄ =
        past
          (require (r.queue_id == e.queue_id && r.selection_generation == g)
            recovery_receipt_binding)
          _ (t, f) k₃ in
      elim (resume-cases s entries e g r x t f k₄) [
        | inl same ↦ inl same
        | inr again ↦ inr (inl again)
      ]

  pub buried-Found :
      (s : SchedulerStore) (id : String) (x : Tombstone) (entries : List QueueEntry)
      (e : QueueEntry)
      → Found s entries e
      → Found (write_tombstone s id x) entries e
  unfolding write_tombstone
  buried-Found s id x entries e a = record {
    loaded = a.loaded;
    distinct = a.distinct;
    stored = a.stored;
  }

  requeue-buried-Grows :
      (s : SchedulerStore) (id : String) (x : Tombstone) (entries : List QueueEntry)
      (e : QueueEntry) (t : SchedulerStore) (f : QueueEntry)
      → s.tombstones id ≡ none
      → Found s entries e
      → requeue hash (write_tombstone s id x) entries e ≡ returns (t, f)
      → Grows s t
  unfolding write_tombstone
  requeue-buried-Grows s id x entries e t f none_yet found h =
      Grows-trans s (write_tombstone s id x) t (write_tombstone-Grows s id x none_yet) (
        requeue-Grows (write_tombstone s id x) entries e t f (buried-Found s id x entries e found)
          h)

  pub recover-Grows :
      (s : SchedulerStore) (q : String) (g : ℕ) (id now : String) (t : SchedulerStore)
      (f : QueueEntry)
      → recover_selected_without_dispatch hash s q g id now ≡ returns (t, f)
      → Grows s t
  unfolding recover_selected_without_dispatch
  recover-Grows s q g id now t f h =
      let (x, e, found, name, k) = with_entry hash s q _ (t, f) h in
      elim (recover_from-cases s x.0 e g id now (s.tombstones id) t f k) [
        | inl same ↦ subst (λ y. Grows s y) (sym same) (Grows-refl s)
        | inr (inl again) ↦ requeue-Grows s x.0 e t f found again
        | inr (inr (none_yet, y, buried)) ↦
            requeue-buried-Grows s id y x.0 e t f none_yet found buried
      ]

  requeue-tombstones :
      (s : SchedulerStore) (entries : List QueueEntry) (e : QueueEntry) (t : SchedulerStore)
      (f : QueueEntry)
      → requeue hash s entries e ≡ returns (t, f)
      → t.tombstones ≡ s.tombstones
  unfolding requeue
  requeue-tombstones s entries e t f h =
      let (u, written, k) =
        peel
          (write_queue hash s (
            update_entries hash e.queue_id
              (replace_entry hash e QueuePhase.queued (suc e.selection_generation)) entries))
          _ (t, f) h in
      ap (λ x. x.tombstones) (write_queue-returns hash s _ t (written ∙ ground (arith)))

  recover_from-buried :
      (s : SchedulerStore) (entries : List QueueEntry) (e : QueueEntry) (g : ℕ) (id now : String)
      (o : Option Tombstone) (t : SchedulerStore) (f : QueueEntry)
      → s.tombstones id ≡ o
      → recover_from hash s entries e g id now o ≡ returns (t, f)
      → (x : Tombstone) × (t.tombstones id ≡ some x) × (x.kind ≡ selected_recovery)
  unfolding recover_from write_tombstone
  recover_from-buried s entries e g id now none t f old h =
      let (r, found, k) =
        peel (or_missing (s.receipts id) recovery_receipt) _ (t, f)
          (past
            (require (e.selection_generation == g && e.state == QueuePhase.selected) recovery_state)
            _ (t, f) h) in
      let k₁ = past (require (r.phase == ReceiptPhase.selected) recovery_receipt) _ (t, f) k in
      let k₂ = past (validate_receipt_binding r e) _ (t, f) k₁ in
      (
        recovery_tombstone e g id r now,
        ap (λ m. m id)
              (requeue-tombstones (write_tombstone s id (recovery_tombstone e g id r now)) entries e
                t f k₂)
            ∙ rw (==-refl id) refl,
        refl,
      )
  recover_from-buried s entries e g id now (some x) t f old h =
      let (good, k) =
        guarded
          (x.kind == selected_recovery && x.queue_id == e.queue_id && x.selection_generation == g)
          recovery_tombstone_conflict _ h in
      (
        x,
        elim (recover_from-cases s entries e g id now (some x) t f h) [
          | inl same ↦ ap (λ y. y.tombstones id) same ∙ old
          | inr (inl again) ↦ ap (λ m. m id) (requeue-tombstones s entries e t f again) ∙ old
          | inr (inr (none_yet, y, buried)) ↦ absurd (ground (arith))
        ],
        ground (arith),
      )

  pub recover-buried :
      (s : SchedulerStore) (q : String) (g : ℕ) (id now : String) (t : SchedulerStore)
      (f : QueueEntry)
      → recover_selected_without_dispatch hash s q g id now ≡ returns (t, f)
      → (x : Tombstone) × (t.tombstones id ≡ some x) × (x.kind ≡ selected_recovery)
  unfolding recover_selected_without_dispatch
  recover-buried s q g id now t f h =
      let (x, e, found, name, k) = with_entry hash s q _ (t, f) h in
      recover_from-buried s x.0 e g id now (s.tombstones id) t f refl k
