-- ===== src/Portfolio/Store/Evidence.antt =====
-- What the operations on receipts of skills/agentdesk/scripts/portfolio_scheduler_store.py write.
use dockyard.Base.{
  ℕ, ◌≡◌, refl, sym, ap, subst, ◌∙◌, ◌==◌, comparable_number, comparable_string, String, List,
  Option, none, some, returns, raises, require, past, peel, arith, inl, inr, ◌⊎◌, ==-refl,
  attempt_cases,
}
use dockyard.Portfolio.Entry.{
  ReceiptPhase, ScheduleReceipt, comparable_phase, comparable_receipt_phase,
}
use dockyard.Portfolio.Codec.{Line}
use dockyard.Portfolio.Store.State.{
  StoreError, SchedulerStore, Tombstone, validate_receipt_binding, or_missing,
  ensure_receipt_digest, receipt_create_phase, receipt_missing, receipt_generation_stale,
  receipt_not_dispatched,
}
use dockyard.Portfolio.Store.Receipts.{
  write_receipt, write_tombstone, finalized_tombstone, commit_checked, reserve, store_receipt,
  create_schedule_receipt, check_advance, check_phase, check_unburied, commit_advance,
  advance_schedule_receipt, bury, finalize_schedule_receipt, dispatched_receipt,
}
use dockyard.Portfolio.Store.Growth.{
  Grows, Grows-refl, Grows-trans, ReceiptMove, write_receipt-Grows, write_tombstone-Grows,
  reserve-Grows, sent,
}
use dockyard.Portfolio.Store.Moves.{with_entry}

pub store_receipt-cases :
    (s : SchedulerStore) (r : ScheduleReceipt) (o : Option ScheduleReceipt) (t : SchedulerStore)
    (q : ScheduleReceipt)
    → store_receipt s r o ≡ returns (t, q)
    → (t ≡ reserve s r) ⊎ ((o ≡ none) × (t ≡ reserve (write_receipt s r.receipt_id r) r))
unfolding store_receipt
store_receipt-cases s r none t q h = ground (arith)
store_receipt-cases s r (some x) t q h = ground (arith)

-- A receipt that `check_phase` lets be written is a selected one.
pub check_phase-selected :
    (r q : ScheduleReceipt) (p : ReceiptPhase) (event : Option String) (x : String)
    → check_phase r p event ≡ returns (q, some x)
    → (q ≡ r) × (r.phase ≡ ReceiptPhase.selected)
unfolding check_phase
check_phase-selected r q p none x h = absurd (ground (arith))
check_phase-selected r q p (some y) x h = ground (arith)

module _ (hash : List Line → String) where
  pub bury-cases :
      (s : SchedulerStore) (id now : String) (r : ScheduleReceipt) (o : Option Tombstone)
      (t : SchedulerStore) (q : ScheduleReceipt)
      → bury hash s id now r o ≡ returns (t, q)
      → (t ≡ s) ⊎ ((o ≡ none) × (x : Tombstone) × (t ≡ write_tombstone s id x))
  unfolding bury
  bury-cases s id now r none t q h = inr (refl, finalized_tombstone r now, ground (arith))
  bury-cases s id now r (some x) t q h = inl (ground (arith))

  pub create_schedule_receipt-cases :
      (s : SchedulerStore) (r : ScheduleReceipt) (t : SchedulerStore) (q : ScheduleReceipt)
      → create_schedule_receipt hash s r ≡ returns (t, q)
      → (t ≡ reserve s r)
        ⊎ ((s.receipts r.receipt_id ≡ none) × (t ≡ reserve (write_receipt s r.receipt_id r) r))
  unfolding create_schedule_receipt
  create_schedule_receipt-cases s r t q h =
      let k = past (ensure_receipt_digest hash r) _ (t, q) h in
      let k₁ = past (require (r.phase == ReceiptPhase.selected) receipt_create_phase) _ (t, q) k in
      let (x, e, found, id, k₂) = with_entry hash s r.queue_id _ (t, q) k₁ in
      let k₃ = past (validate_receipt_binding r e) _ (t, q) k₂ in
      store_receipt-cases s r (s.receipts r.receipt_id) t q (past _ _ (t, q) k₃)

  pub create_schedule_receipt-Grows :
      (s : SchedulerStore) (r : ScheduleReceipt) (t : SchedulerStore) (q : ScheduleReceipt)
      → create_schedule_receipt hash s r ≡ returns (t, q)
      → Grows s t
  create_schedule_receipt-Grows s r t q h = elim (create_schedule_receipt-cases s r t q h) [
    | inl same ↦ subst (λ y. Grows s y) (sym same) (reserve-Grows s r)
    | inr (absent, made) ↦
        subst (λ y. Grows s y) (sym made)
          (Grows-trans s (write_receipt s r.receipt_id r) _
            (write_receipt-Grows s r.receipt_id r (λ p there. absurd (ground (arith))))
            (reserve-Grows (write_receipt s r.receipt_id r) r))
  ]

  pub finalize_schedule_receipt-cases :
      (s : SchedulerStore) (id now : String) (t : SchedulerStore) (q : ScheduleReceipt)
      → finalize_schedule_receipt hash s id now ≡ returns (t, q)
      → (t ≡ s) ⊎ ((s.tombstones id ≡ none) × (x : Tombstone) × (t ≡ write_tombstone s id x))
  unfolding finalize_schedule_receipt
  finalize_schedule_receipt-cases s id now t q h =
      let (r, stored, k) = peel (or_missing (s.receipts id) receipt_missing) _ (t, q) h in
      let (x, e, found, name, k₁) = with_entry hash s r.queue_id _ (t, q) k in
      let k₂ = past (validate_receipt_binding r e) _ (t, q) k₁ in
      bury-cases s id now r (s.tombstones id) t q
        (past (require (r.phase == ReceiptPhase.dispatched) receipt_not_dispatched) _ (t, q) k₂)

  pub finalize_schedule_receipt-Grows :
      (s : SchedulerStore) (id now : String) (t : SchedulerStore) (q : ScheduleReceipt)
      → finalize_schedule_receipt hash s id now ≡ returns (t, q)
      → Grows s t
  finalize_schedule_receipt-Grows s id now t q h =
      elim (finalize_schedule_receipt-cases s id now t q h) [
        | inl same ↦ subst (λ y. Grows s y) (sym same) (Grows-refl s)
        | inr (absent, x, made) ↦
            subst (λ y. Grows s y) (sym made) (write_tombstone-Grows s id x absent)
      ]

  -- What is known of the receipt that `check_advance` lets through.
  pub check_advance-stored :
      (s : SchedulerStore) (id : String) (g : ℕ) (p : ReceiptPhase) (event : Option String)
      (r : ScheduleReceipt) (o : Option String)
      → check_advance hash s id g p event ≡ returns (r, o)
      → (q : ScheduleReceipt) × (s.receipts id ≡ some q) × (check_phase q p event ≡ returns (r, o))
  unfolding check_advance
  check_advance-stored s id g p event r o h =
      let (q, stored, k) = peel (or_missing (s.receipts id) receipt_missing) _ (r, o) h in
      let k₁ = past (check_unburied (s.tombstones id) q) _ (r, o) k in
      let k₂ = past (require (q.selection_generation == g) receipt_generation_stale) _ (r, o) k₁ in
      let (y, e, found, name, k₃) = with_entry hash s q.queue_id _ (r, o) k₂ in
      (q, or_missing-some (s.receipts id) q stored, past (validate_receipt_binding q e) _ (r, o) k₃)
    where
      or_missing-some :
          (o : Option ScheduleReceipt) (q : ScheduleReceipt)
          → or_missing o receipt_missing ≡ returns q
          → o ≡ some q
      or_missing-some none q h = cc
      or_missing-some (some z) q h = ground (arith)

  commit_advance-Grows :
      (s : SchedulerStore) (id : String) (g : ℕ) (p : ReceiptPhase) (event : Option String)
      (r : ScheduleReceipt) (o : Option String)
      → check_advance hash s id g p event ≡ returns (r, o)
      → Grows s (commit_advance hash s id r o).0
  unfolding commit_advance dispatched_receipt
  commit_advance-Grows s id g p event r none h = Grows-refl s
  commit_advance-Grows s id g p event r (some x) h =
      let (q, stored, checked) = check_advance-stored s id g p event r (some x) h in
      let (same, phase) = check_phase-selected q r p event x checked in
      write_receipt-Grows s id (dispatched_receipt hash r x) (λ z there.
        subst (λ y. ReceiptMove y (dispatched_receipt hash r x))
          (let equal : r ≡ z = ground (arith) in equal)
          (sent (ap (λ y. y.phase) same ∙ phase) refl refl refl))

  unwritten :
      (s : SchedulerStore) (id : String) (e : StoreError)
      → Grows s (commit_checked hash s id (raises e)).0
  unfolding commit_checked
  unwritten s id e = Grows-refl s

  written :
      (s : SchedulerStore) (id : String) (g : ℕ) (p : ReceiptPhase) (event : Option String)
      (r : ScheduleReceipt) (o : Option String)
      → check_advance hash s id g p event ≡ returns (r, o)
      → Grows s (commit_checked hash s id (returns (r, o))).0
  unfolding commit_checked
  written s id g p event r o h = commit_advance-Grows s id g p event r o h

  pub advance_schedule_receipt-Grows :
      (s : SchedulerStore) (id : String) (g : ℕ) (p : ReceiptPhase) (event : Option String)
      → Grows s (advance_schedule_receipt hash s id g p event).0
  unfolding advance_schedule_receipt
  advance_schedule_receipt-Grows s id g p event =
      elim (attempt_cases (check_advance hash s id g p event)) [
        | inl (e, h) ↦
            subst (λ m. Grows s (commit_checked hash s id m).0) (sym h) (unwritten s id e)
        | inr (x, h) ↦
            subst (λ m. Grows s (commit_checked hash s id m).0) (sym h)
              (written s id g p event x.0 x.1 h)
      ]

  bury-buried :
      (s : SchedulerStore) (id now : String) (r : ScheduleReceipt) (o : Option Tombstone)
      (t : SchedulerStore) (q : ScheduleReceipt)
      → s.tombstones id ≡ o
      → bury hash s id now r o ≡ returns (t, q)
      → (x : Tombstone) × (t.tombstones id ≡ some x)
  unfolding bury write_tombstone
  bury-buried s id now r none t q old h =
      let made : write_tombstone s id (finalized_tombstone r now) ≡ t = ground (arith) in
      (finalized_tombstone r now, ap (λ y. y.tombstones id) (sym made) ∙ rw (==-refl id) refl)
  bury-buried s id now r (some x) t q old h =
      let same : s ≡ t = ground (arith) in (x, ap (λ y. y.tombstones id) (sym same) ∙ old)

  pub finalize-buried :
      (s : SchedulerStore) (id now : String) (t : SchedulerStore) (q : ScheduleReceipt)
      → finalize_schedule_receipt hash s id now ≡ returns (t, q)
      → (x : Tombstone) × (t.tombstones id ≡ some x)
  unfolding finalize_schedule_receipt
  finalize-buried s id now t q h =
      let (r, stored, k) = peel (or_missing (s.receipts id) receipt_missing) _ (t, q) h in
      let (x, e, found, name, k₁) = with_entry hash s r.queue_id _ (t, q) k in
      let k₂ = past (validate_receipt_binding r e) _ (t, q) k₁ in
      let k₃ =
        past (require (r.phase == ReceiptPhase.dispatched) receipt_not_dispatched) _ (t, q) k₂ in
      bury-buried s id now r (s.tombstones id) t q refl k₃
