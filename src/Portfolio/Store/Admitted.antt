-- ===== src/Portfolio/Store/Admitted.antt =====
-- What `reserve_admission_selection` of skills/agentdesk/scripts/portfolio_scheduler_store.py writes.
use dockyard.Base.{
  ◌≤◌, ◌≡◌, refl, sym, ap, ◌∙◌, ◌==◌, comparable_string, String, List, Option, none, some, Attempt,
  returns, raises, require, past, arith, inl, inr, Bool-cases, Option-cases, comparable_number,
  ◌||◌, eq_of_==,
}
use dockyard.Portfolio.Entry.{
  QueueEntry, QueuePhase, ReceiptPhase, ScheduleReceipt, comparable_phase, comparable_receipt_phase,
}
use dockyard.Portfolio.Codec.{Line}
use dockyard.Portfolio.Store.State.{
  StoreError, SchedulerStore, Tombstone, write_queue, replace_entry, update_entries,
  ensure_receipt_digest, selection_receipt_phase, selection_queue_phase, queue_generation_stale,
}
use dockyard.Portfolio.Store.Queue.{insert_entry}
use dockyard.Portfolio.Store.Receipts.{write_receipt, write_tombstone, reserve, agrees}
use dockyard.Portfolio.Store.Growth.{
  Grows, Grows-refl, Grows-trans, write_receipt-Grows, reserve-Grows,
}
use dockyard.Portfolio.Store.Loadable.{Write, same, rewritten, inserted, issued, sequences}
use dockyard.Portfolio.Store.Moves.{Found, with_entry, replace-Grows}
use dockyard.Portfolio.Store.Writes.{replace-Write}
use dockyard.Portfolio.Store.Admission.{
  AdmissionPlan, validate_plan_binding, select_receipt, check_selection, commit_queue,
  mark_selected, finish_selection, select_checked, reserve_admission_selection,
}

-- The queue and the counter are untouched.
abbrev pub SameFiles : SchedulerStore → SchedulerStore → Type 0
SameFiles s t = (t.queue ≡ s.queue) × (t.sequence ≡ s.sequence)

pub reserve-SameFiles : (s : SchedulerStore) (r : ScheduleReceipt) → SameFiles s (reserve s r)
unfolding reserve
reserve-SameFiles s r = elim (Option-cases (s.reservations r.queue_id r.selection_generation)) [
  | inl n ↦ rw (reserve, n) (refl, refl)
  | inr (q, h) ↦ rw (reserve, h) (refl, refl)
]

pub write_receipt-SameFiles :
    (s : SchedulerStore) (id : String) (r : ScheduleReceipt) → SameFiles s (write_receipt s id r)
unfolding write_receipt
write_receipt-SameFiles s id r = (refl, refl)

pub write_tombstone-SameFiles :
    (s : SchedulerStore) (id : String) (x : Tombstone) → SameFiles s (write_tombstone s id x)
unfolding write_tombstone
write_tombstone-SameFiles s id x = (refl, refl)

select_receipt-SameFiles :
    (s : SchedulerStore) (r : ScheduleReceipt) (o : Option ScheduleReceipt)
    → SameFiles s (select_receipt s r o).0
unfolding select_receipt
select_receipt-SameFiles s r none = write_receipt-SameFiles s r.receipt_id r
select_receipt-SameFiles s r (some q) = (refl, refl)

select_receipt-Grows :
    (s : SchedulerStore) (r : ScheduleReceipt) (o : Option ScheduleReceipt)
    → s.receipts r.receipt_id ≡ o
    → Grows s (select_receipt s r o).0
unfolding select_receipt
select_receipt-Grows s r none h =
    write_receipt-Grows s r.receipt_id r (λ p there. absurd (ground (arith)))
select_receipt-Grows s r (some q) h = Grows-refl s

Found-same :
    (s t : SchedulerStore) (entries : List QueueEntry) (e : QueueEntry)
    → SameFiles s t
    → Found s entries e
    → Found t entries e
Found-same s t entries e (q, c) f = record {
  loaded = f.loaded ∙ sym q;
  distinct = rw q f.distinct;
  stored = rw q f.stored;
}

module _ (hash : List Line → String) where
  pub files-Write : (s t u : SchedulerStore) → u ≡ t → SameFiles s t → Write hash s u
  files-Write s t u made (q, c) = same (ap (λ x. x.queue) made ∙ q) (ap (λ x. x.sequence) made ∙ c)

  -- A write behind one that leaves the queue and the counter.
  SameFiles-Write : (s t u : SchedulerStore) → SameFiles s t → Write hash t u → Write hash s u
  SameFiles-Write s t u (q, c) (same k l) = same (k ∙ q) (l ∙ c)
  SameFiles-Write s t u (q, c) (rewritten l k v) = rewritten (l ∙ c) (k ∙ ap sequences q) v
  SameFiles-Write s t u (q, c) (inserted e p l k v counted n) =
      inserted e p (l ∙ c) (k ∙ ap (insert_entry e) q) v (rw (← q, ← c) counted) n
  SameFiles-Write s t u (q, c) (issued p k l counted n) =
      issued p (k ∙ q) l (rw (← q, ← c) counted) n

  -- Both facts about a write.
  abbrev Written : SchedulerStore → SchedulerStore → Type 0
  Written s t = Grows s t × Write hash s t

  commit_queue-Written :
      (s : SchedulerStore) (entries : List QueueEntry) (d : ScheduleReceipt) (e f : QueueEntry)
      (m : Attempt StoreError SchedulerStore)
      → Found s entries e
      → e.state ≡ QueuePhase.queued
      → write_queue hash s (
          update_entries hash e.queue_id
            (replace_entry hash e QueuePhase.selected e.selection_generation)
            entries)
        ≡ m
      → Written s (commit_queue s d f m).0
  commit_queue-Written s entries d e f (raises x) found old h = (Grows-refl s, same refl refl)
  commit_queue-Written s entries d e f (returns t) found old h = (
    replace-Grows hash s entries e QueuePhase.selected e.selection_generation t found
        (inr (refl, rw old (let l : 0 ≤ 1 = omega arith in l))) h,
    replace-Write hash s entries e QueuePhase.selected e.selection_generation t found h,
  )

  mark_selected-Written :
      (s : SchedulerStore) (d : ScheduleReceipt) (entries : List QueueEntry) (e : QueueEntry)
      → Found s entries e
      → Written s (mark_selected hash s d entries e).0
  unfolding mark_selected
  mark_selected-Written s d entries e found = elim (Bool-cases (e.state == QueuePhase.queued)) [
    | inl t ↦
        rw t
          (commit_queue-Written s entries d e _ _ found (eq_of_== e.state QueuePhase.queued t) refl)
    | inr f ↦ rw f (Grows-refl s, same refl refl)
  ]

  finish_selection-Written :
      (s : SchedulerStore) (r : ScheduleReceipt) (entries : List QueueEntry) (e : QueueEntry)
      (m : Attempt StoreError ScheduleReceipt)
      → Found s entries e
      → Written s (finish_selection hash s r entries e m).0
  unfolding finish_selection
  finish_selection-Written s r entries e (raises x) found = (Grows-refl s, same refl refl)
  finish_selection-Written s r entries e (returns d) found =
      let equal = reserve-SameFiles s r in
      let (grows, write) =
        mark_selected-Written (reserve s r) d entries e (Found-same s _ entries e equal found) in
      elim (Bool-cases (agrees (s.reservations r.queue_id r.selection_generation) r)) [
        | inl t ↦ rw t (
          Grows-trans s (reserve s r) _ (reserve-Grows s r) grows,
          SameFiles-Write s (reserve s r) _ equal write,
        )
        | inr f ↦ rw f (Grows-refl s, same refl refl)
      ]

  check_selection-Found :
      (s : SchedulerStore) (p : AdmissionPlan) (r : ScheduleReceipt)
      (validated planned : Attempt StoreError (Unit {0})) (entries : List QueueEntry)
      (e : QueueEntry)
      → check_selection hash s p r validated planned ≡ returns (entries, e)
      → Found s entries e
  unfolding check_selection
  check_selection-Found s p r validated planned entries e h =
      let k = past validated _ (entries, e) h in
      let k₁ = past (ensure_receipt_digest hash r) _ (entries, e) k in
      let k₂ =
        past (require (r.phase == ReceiptPhase.selected) selection_receipt_phase) _ (entries, e)
          k₁ in
      let (x, f, found, id, k₃) = with_entry hash s p.queue_id _ (entries, e) k₂ in
      let k₄ =
        past
          (require (f.state == QueuePhase.queued || f.state == QueuePhase.selected)
            selection_queue_phase)
          _ (entries, e) k₃ in
      let k₅ =
        past (require (f.selection_generation == p.selection_generation) queue_generation_stale) _
          (entries, e) k₄ in
      let k₆ = past (validate_plan_binding p r f) _ (entries, e) k₅ in
      let k₇ = past planned _ (entries, e) k₆ in
      let a : x.0 ≡ entries = cc in let b : f ≡ e = cc in rw (← a, ← b) found

  select_checked-Written :
      (s : SchedulerStore) (r : ScheduleReceipt)
      (m : Attempt StoreError (List QueueEntry × QueueEntry))
      → ((entries : List QueueEntry) (e : QueueEntry)
          → m ≡ returns (entries, e)
          → Found s entries e)
      → Written s (select_checked hash s r m).0
  unfolding select_checked
  select_checked-Written s r (raises x) h = (Grows-refl s, same refl refl)
  select_checked-Written s r (returns (entries, e)) h =
      let found = h entries e refl in
      let equal = select_receipt-SameFiles s r (s.receipts r.receipt_id) in
      let chosen = select_receipt s r (s.receipts r.receipt_id) in
      let (grows, write) =
        finish_selection-Written chosen.0 r entries e chosen.1
          (Found-same s chosen.0 entries e equal found) in
      (
        Grows-trans s chosen.0 _ (select_receipt-Grows s r (s.receipts r.receipt_id) refl) grows,
        SameFiles-Write s chosen.0 _ equal write,
      )

  -- Whatever the validation of the plan and its file come to, the store grows, and its queue and
  -- counter are rewritten as a move of an entry rewrites them.
  pub reserve_admission_selection-Written :
      (s : SchedulerStore) (p : AdmissionPlan) (r : ScheduleReceipt)
      (validated planned : Attempt StoreError (Unit {0}))
      → Grows s (reserve_admission_selection hash s p r validated planned).0
        × Write hash s (reserve_admission_selection hash s p r validated planned).0
  unfolding reserve_admission_selection
  reserve_admission_selection-Written s p r validated planned =
      select_checked-Written s r (check_selection hash s p r validated planned)
        (check_selection-Found s p r validated planned)
