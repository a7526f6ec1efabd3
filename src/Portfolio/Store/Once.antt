-- ===== src/Portfolio/Store/Once.antt =====
-- What a tombstone and a dispatch in skills/agentdesk/scripts/portfolio_scheduler_store.py
-- mean for the stores after them.
use dockyard.Base.{
  ℕ, ◌≡◌, ◌≢◌, refl, sym, ap, ◌∙◌, ◌==◌, comparable_number, comparable_string, String, true, not,
  ◌&&◌, List, Option, none, some, Attempt, returns, raises, require, past, peel, guarded,
  first_returns, arith, inl, inr, Bool-cases, eq_of_==, ==-refl, attempt_cases,
}
use dockyard.Portfolio.Entry.{
  QueueEntry, ReceiptPhase, ScheduleReceipt, comparable_phase, comparable_receipt_phase,
}
use dockyard.Portfolio.Codec.{Line}
use dockyard.Portfolio.Store.State.{
  StoreError, SchedulerStore, Tombstone, selected_recovery, comparable_tombstone,
  validate_tombstone_for_receipt, or_missing, receipt_finalized_or_recovered, receipt_event_replay,
  reservation_divergent, receipt_missing,
}
use dockyard.Portfolio.Store.Receipts.{
  agrees, check_readable, read_schedule_receipt, same_event, check_advance, check_phase,
  check_unburied, commit_checked, commit_advance, advance_schedule_receipt,
  finalize_schedule_receipt, recover_selected_without_dispatch, dispatched_receipt, write_receipt,
}
use dockyard.Portfolio.Store.Growth.{ReceiptMove, sent, kept}
use dockyard.Portfolio.Store.Recover.{recover-buried}
use dockyard.Portfolio.Store.Evidence.{finalize-buried, check_advance-stored, check_phase-selected}
use dockyard.Portfolio.Store.History.{Reach, Reach-Grows}

-- The call raised and wrote nothing.
pub Refused : SchedulerStore → SchedulerStore × Attempt StoreError ScheduleReceipt → Type 0
Refused s (t, m) = (t ≡ s) × (e : StoreError) × (m ≡ raises e)

check_unburied-raises :
    (x : Tombstone) (r : ScheduleReceipt)
    → (e : StoreError) × (check_unburied (some x) r ≡ raises e)
unfolding check_unburied
check_unburied-raises x r = elim (attempt_cases (validate_tombstone_for_receipt x r)) [
  | inl (e, h) ↦ (e, rw h refl)
  | inr (a, h) ↦ (receipt_finalized_or_recovered, rw h refl)
]

check_readable-recovered :
    (x : Tombstone) (r : ScheduleReceipt)
    → x.kind ≡ selected_recovery
    → check_readable (some x) r ≢ returns tt
unfolding check_readable
check_readable-recovered x r k h = ground (arith, past (validate_tombstone_for_receipt x r) _ tt h)

same_event-eq : (o : Option String) (x : String) → same_event o (some x) ≡ true → o ≡ some x
same_event-eq none x h = cc
same_event-eq (some y) x h = ap some (eq_of_== y x h)

check_phase-replay :
    (r q : ScheduleReceipt) (x : String)
    → check_phase r ReceiptPhase.dispatched (some x) ≡ returns (q, none)
    → (q ≡ r) × (r.phase ≡ ReceiptPhase.dispatched) × (r.dispatch_event_id ≡ some x)
unfolding check_phase
check_phase-replay r q x h = elim (Bool-cases (r.phase == ReceiptPhase.dispatched)) [
  | inl t ↦
      let h₁ = rw t at h in
      let (good, h₂) =
        guarded
          (not (
            ReceiptPhase.dispatched == ReceiptPhase.dispatched
            && not (same_event r.dispatch_event_id (some x))))
          receipt_event_replay _ h₁ in
      (
        ground (arith, h₂),
        eq_of_== r.phase ReceiptPhase.dispatched t,
        same_event-eq r.dispatch_event_id x (ground (arith, good)),
      )
  | inr f ↦ absurd (ground (arith))
]

check_phase-event :
    (r q : ScheduleReceipt) (x y : String)
    → check_phase r ReceiptPhase.dispatched (some x) ≡ returns (q, some y)
    → y ≡ x
unfolding check_phase
check_phase-event r q x y h = ground (arith)

module _ (hash : List Line → String) where
  check_advance-buried :
      (s : SchedulerStore) (id : String) (g : ℕ) (p : ReceiptPhase) (event : Option String)
      (x : Tombstone)
      → s.tombstones id ≡ some x
      → (e : StoreError) × (check_advance hash s id g p event ≡ raises e)
  unfolding check_advance
  check_advance-buried s id g p event x h =
      elim (attempt_cases (or_missing (s.receipts id) receipt_missing)) [
        | inl (e, k) ↦ (e, rw k refl)
        | inr (r, k) ↦
            let (e, raised) = check_unburied-raises x r in (e, rw k (rw h (rw raised refl)))
      ]

  pub advance-buried-Refused :
      (s : SchedulerStore) (id : String) (g : ℕ) (p : ReceiptPhase) (event : Option String)
      (x : Tombstone)
      → s.tombstones id ≡ some x
      → Refused s (advance_schedule_receipt hash s id g p event)
  unfolding advance_schedule_receipt commit_checked Refused
  advance-buried-Refused s id g p event x h =
      let (e, raised) = check_advance-buried s id g p event x h in rw raised (refl, e, refl)

  read-recovered :
      (s : SchedulerStore) (id : String) (x : Tombstone)
      → s.tombstones id ≡ some x
      → x.kind ≡ selected_recovery
      → (r : ScheduleReceipt) → read_schedule_receipt hash s id ≢ returns r
  unfolding read_schedule_receipt check_readable
  read-recovered s id x h k r read =
      let (q, stored, after) = peel (or_missing (s.receipts id) receipt_missing) _ r read in
      check_readable-recovered x q k (
        ap (λ o. check_readable o q) (sym h)
        ∙ first_returns (check_readable (s.tombstones id) q) _ r after)

  -- Once recover_selected_without_dispatch has returned for a receipt, then in every later store
  -- advance_schedule_receipt on it raises and writes nothing, whatever its other arguments, and
  -- read_schedule_receipt on it does not return.
  pub recover-final :
      (s t u : SchedulerStore) (q : String) (g : ℕ) (id now : String) (e : QueueEntry)
      → recover_selected_without_dispatch hash s q g id now ≡ returns (t, e)
      → Reach hash t u
      → ((h : ℕ) (p : ReceiptPhase) (event : Option String)
          → Refused u (advance_schedule_receipt hash u id h p event))
        × ((r : ScheduleReceipt) → read_schedule_receipt hash u id ≢ returns r)
  recover-final s t u q g id now e done later =
      let (x, buried, kind) = recover-buried hash s q g id now t e done in
      let still = (Reach-Grows hash later).tombstones id x buried in
      (
        (λ h p event. advance-buried-Refused u id h p event x still),
        read-recovered u id x still kind,
      )

  -- Once finalize_schedule_receipt has returned for a receipt, then in every later store
  -- advance_schedule_receipt on it raises and writes nothing.
  pub finalize-final :
      (s t u : SchedulerStore) (id now : String) (r : ScheduleReceipt)
      → finalize_schedule_receipt hash s id now ≡ returns (t, r)
      → Reach hash t u
      → (g : ℕ) (p : ReceiptPhase) (event : Option String)
      → Refused u (advance_schedule_receipt hash u id g p event)
  finalize-final s t u id now r done later g p event =
      let (x, buried) = finalize-buried hash s id now t r done in
      advance-buried-Refused u id g p event x ((Reach-Grows hash later).tombstones id x buried)

  -- A receipt dispatched for the event `x` is stored under `id`.
  pub IsDispatched : SchedulerStore → String → ScheduleReceipt → String → Type 0
  IsDispatched s id r x =
      (s.receipts id ≡ some r)
      × (r.phase ≡ ReceiptPhase.dispatched)
      × (r.dispatch_event_id ≡ some x)

  commit-IsDispatched :
      (s : SchedulerStore) (id x : String) (g : ℕ) (q : ScheduleReceipt) (o : Option String)
      (r : ScheduleReceipt)
      → check_advance hash s id g ReceiptPhase.dispatched (some x) ≡ returns (q, o)
      → (commit_advance hash s id q o).1 ≡ returns r
      → IsDispatched (commit_advance hash s id q o).0 id r x
  unfolding commit_advance write_receipt dispatched_receipt IsDispatched
  commit-IsDispatched s id x g q none r h k =
      let (p, stored, checked) =
        check_advance-stored hash s id g ReceiptPhase.dispatched (some x) q none h in
      let (same, phase, event) = check_phase-replay p q x checked in
      let out : q ≡ r = ground (arith) in
      (
        ground (arith),
        ap (λ y. y.phase) (sym out ∙ same) ∙ phase,
        ap (λ y. y.dispatch_event_id) (sym out ∙ same) ∙ event,
      )
  commit-IsDispatched s id x g q (some y) r h k =
      let (p, stored, checked) =
        check_advance-stored hash s id g ReceiptPhase.dispatched (some x) q (some y) h in
      let same = check_phase-event p q x y checked in
      let out : dispatched_receipt hash q y ≡ r = ground (
        arith,
        past
            (require (agrees (s.reservations q.queue_id q.selection_generation) q)
              reservation_divergent)
            _ r k,
      ) in
      (
        rw (==-refl id) (ap some out),
        ap (λ z. z.phase) (sym out),
        ap (λ z. z.dispatch_event_id) (sym out) ∙ ap some same,
      )

  advance-IsDispatched :
      (s : SchedulerStore) (id x : String) (g : ℕ) (r : ScheduleReceipt)
      → (advance_schedule_receipt hash s id g ReceiptPhase.dispatched (some x)).1 ≡ returns r
      → IsDispatched
          (advance_schedule_receipt hash s id g ReceiptPhase.dispatched (some x)).0
          id
          r
          x
  unfolding advance_schedule_receipt commit_checked
  advance-IsDispatched s id x g r h =
      elim (attempt_cases (check_advance hash s id g ReceiptPhase.dispatched (some x))) [
        | inl (e, k) ↦ let raised = rw k at h in absurd (ground (arith))
        | inr ((q, o), k) ↦ rw k (commit-IsDispatched s id x g q o r k (rw k at h))
      ]

  kept-IsDispatched :
      (s t : SchedulerStore) (id x : String) (r : ScheduleReceipt)
      → IsDispatched s id r x
      → Reach hash s t
      → IsDispatched t id r x
  unfolding IsDispatched
  kept-IsDispatched s t id x r (stored, phase, event) later =
      let (q, there, move) = (Reach-Grows hash later).receipts id r stored in
      (still q move there, phase, event)
    where
      still :
          (q : ScheduleReceipt) → ReceiptMove r q → t.receipts id ≡ some q → t.receipts id ≡ some r
      still q (kept same) h = h ∙ ap some same
      still q (sent old new name generation) h = absurd (ground (arith))

  replay-commit :
      (s : SchedulerStore) (id x y : String) (g : ℕ) (r p q : ScheduleReceipt) (o : Option String)
      → IsDispatched s id r x
      → check_advance hash s id g ReceiptPhase.dispatched (some y) ≡ returns (p, o)
      → (commit_advance hash s id p o).1 ≡ returns q
      → (y ≡ x) × (q ≡ r) × ((commit_advance hash s id p o).0 ≡ s)
  unfolding commit_advance IsDispatched
  replay-commit s id x y g r p q none (stored, phase, event) h k =
      let (z, there, checked) =
        check_advance-stored hash s id g ReceiptPhase.dispatched (some y) p none h in
      let (same, again, named) = check_phase-replay z p y checked in
      let one : z ≡ r = ground (arith) in (ground (arith), ground (arith), refl)
  replay-commit s id x y g r p q (some w) (stored, phase, event) h k =
      let (z, there, checked) =
        check_advance-stored hash s id g ReceiptPhase.dispatched (some y) p (some w) h in
      let (same, old) = check_phase-selected z p ReceiptPhase.dispatched (some y) w checked in
      let one : z ≡ r = ground (arith) in absurd (ground (arith))

  replay-IsDispatched :
      (s : SchedulerStore) (id x y : String) (g : ℕ) (r q : ScheduleReceipt)
      → IsDispatched s id r x
      → (advance_schedule_receipt hash s id g ReceiptPhase.dispatched (some y)).1 ≡ returns q
      → (y ≡ x)
        × (q ≡ r)
        × ((advance_schedule_receipt hash s id g ReceiptPhase.dispatched (some y)).0 ≡ s)
  unfolding advance_schedule_receipt commit_checked
  replay-IsDispatched s id x y g r q d h =
      elim (attempt_cases (check_advance hash s id g ReceiptPhase.dispatched (some y))) [
        | inl (e, k) ↦ let raised = rw k at h in absurd (ground (arith))
        | inr ((p, o), k) ↦ rw k (replay-commit s id x y g r p q o d k (rw k at h))
      ]

  -- A receipt is dispatched for one event: once advance_schedule_receipt has returned for an
  -- event, then in every later store a call that dispatches the receipt returns only for the same
  -- event, returns the same receipt and writes nothing.
  pub advance_schedule_receipt-once :
      (s t : SchedulerStore) (id x y : String) (g h : ℕ) (r q : ScheduleReceipt)
      → (advance_schedule_receipt hash s id g ReceiptPhase.dispatched (some x)).1 ≡ returns r
      → Reach hash (advance_schedule_receipt hash s id g ReceiptPhase.dispatched (some x)).0 t
      → (advance_schedule_receipt hash t id h ReceiptPhase.dispatched (some y)).1 ≡ returns q
      → (y ≡ x)
        × (q ≡ r)
        × ((advance_schedule_receipt hash t id h ReceiptPhase.dispatched (some y)).0 ≡ t)
  advance_schedule_receipt-once s t id x y g h r q first later second =
      replay-IsDispatched t id x y h r q
        (kept-IsDispatched (advance_schedule_receipt hash s id g ReceiptPhase.dispatched (some x)).0
          t id x r (advance-IsDispatched s id x g r first) later)
        second
