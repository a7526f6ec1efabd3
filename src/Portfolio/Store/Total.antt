-- ===== src/Portfolio/Store/Total.antt =====
-- Calls of skills/agentdesk/scripts/portfolio_scheduler_store.py on a store that
-- `_load_state` accepts.
use dockyard.Base.{
  ℕ, zero, suc, ◌+◌, ◌≡◌, refl, sym, ap, ◌∙◌, ◌==◌, comparable_number, comparable_string, String,
  true, false, List, [], ◌∷◌, ◌++◌, Option, none, some, returns, require, arith, ==-refl,
}
use dockyard.Portfolio.Entry.{
  QueueEntry, QueuePhase, comparable_phase, comparable_receipt_phase, QueuePhase-discrete,
}
use mathlib.Core.Path.{ap₂}
use dockyard.CoreTypes.{comparable_kind}
use dockyard.Portfolio.Store.State.{
  SchedulerStore, load_queue, load_sequence, check_sequence, same_numbers, range_from, write_queue,
  write_sequence, validate_queue_snapshot, find_queue_entry, replace_entry, update_entries,
  sequence_not_contiguous,
}
use dockyard.Portfolio.Store.Queue.{
  reserve_enqueue_sequence, follows, check_event, write_phase, move_entry, advance_queue_phase,
}
use dockyard.Portfolio.Store.Growth.{last_issued}
use dockyard.Portfolio.Store.Valid.{
  load_state-valid, find_queue_entry-In, update_entries-valid, SameIdentity,
}
use dockyard.Portfolio.Store.Loadable.{IsLoadable, load_sequence-parts, load_sequence-empty}
use dockyard.Portfolio.Codec.{Line, entry_lines}

same_numbers-append :
    (first count : ℕ) (ns : List ℕ)
    → same_numbers ns (range_from first count) ≡ true
    → same_numbers (ns ++ ((first + count) ∷ [])) (range_from first (suc count)) ≡ true
same_numbers-append first zero [] h = ground (arith)
same_numbers-append first zero (n ∷ ns) h = cc
same_numbers-append first (suc count) [] h = cc
same_numbers-append first (suc count) (n ∷ ns) h =
    ground (arith, same_numbers-append (suc first) count ns)

check_sequence-next :
    (n : ℕ) (ns : List ℕ)
    → check_sequence n ns ≡ returns tt
    → check_sequence (n + 1) (ns ++ ((n + 1) ∷ [])) ≡ returns tt
unfolding check_sequence
check_sequence-next n ns h =
    let contiguous : same_numbers ns (range_from 1 n) ≡ true = ground (arith) in
    let longer : same_numbers (ns ++ ((1 + n) ∷ [])) (range_from 1 (suc n)) ≡ true =
      same_numbers-append 1 n ns contiguous in
    let equal : 1 + n ≡ n + 1 = omega arith in
    let equal' : suc n ≡ n + 1 = omega arith in
    ap (λ b. require b sequence_not_contiguous)
      (sym (ap₂ (λ m k. same_numbers (ns ++ (m ∷ [])) (range_from 1 k)) equal equal') ∙ longer)

counted-contiguous :
    (o : Option (ℕ × List ℕ)) (es : List QueueEntry) (p : ℕ × List ℕ)
    → load_sequence o es ≡ returns p
    → (p.0 ≡ last_issued o) × (check_sequence p.0 p.1 ≡ returns tt)
unfolding check_sequence
counted-contiguous none es p h =
    let (start, empty) = load_sequence-empty es p h in
    (ap (λ q. q.0) (sym start), ap (λ q. check_sequence q.0 q.1) (sym start) ∙ nothing_issued)
  where
    nothing_issued : check_sequence 0 [] ≡ returns tt
    nothing_issued = refl
counted-contiguous (some (n, ns)) es p h =
    let (equal, contiguous, a, b) = load_sequence-parts n ns es p h in
    (ap (λ q. q.0) (sym equal), ap (λ q. check_sequence q.0 q.1) (sym equal) ∙ contiguous)

module _ (hash : List Line → String) where
  -- On a store that _load_state accepts, reserve_enqueue_sequence returns the successor of the
  -- last number issued.
  pub reserve_enqueue_sequence-total :
      (s : SchedulerStore)
      → IsLoadable hash s
      → (t : SchedulerStore) × (reserve_enqueue_sequence hash s
          ≡ returns (t, last_issued s.sequence + 1))
  unfolding reserve_enqueue_sequence load_queue write_sequence IsLoadable
  reserve_enqueue_sequence-total s (p, h) =
      let (e, valid, counted) = load_state-valid hash s s.queue p h in
      let (last, contiguous) = counted-contiguous s.sequence s.queue p counted in
      (
        record s { sequence = some (p.0 + 1, p.1 ++ ((p.0 + 1) ∷ [])) },
        rw (valid, counted, check_sequence-next p.0 p.1 contiguous)
            (ap
              (λ n.
                returns (record s { sequence = some (p.0 + 1, p.1 ++ ((p.0 + 1) ∷ [])) }, n + 1))
              last),
      )

  pub replace-written :
      (s : SchedulerStore) (q : String) (e : QueueEntry) (p : QueuePhase) (g : ℕ)
      → validate_queue_snapshot hash s.queue ≡ returns tt
      → find_queue_entry s.queue q ≡ returns e
      → write_queue hash s (update_entries hash e.queue_id (replace_entry hash e p g) s.queue)
        ≡ returns
            (record s { queue = update_entries hash e.queue_id (replace_entry hash e p g) s.queue })
  unfolding write_queue replace_entry entry_lines
  replace-written s q e p g valid found =
      rw
        (update_entries-valid hash s.queue e (replace_entry hash e p g) valid
          (find_queue_entry-In s.queue q e found).0 (replaced e p g).0 (replaced e p g).1)
        refl
    where
      replaced :
          (e : QueueEntry) (p : QueuePhase) (g : ℕ)
          → SameIdentity e (replace_entry hash e p g)
            × ((replace_entry hash e p g).content_digest
                ≡ hash (entry_lines (replace_entry hash e p g) false []))
      replaced e p g = (
        record {
          same_queue_id = refl;
          same_task_id = refl;
          same_revision = refl;
          same_sequence = refl;
        },
        refl,
      )

  follows-other : (a b : QueuePhase) → follows a b ≡ true → (a == b) ≡ false
  unfolding QueuePhase-discrete
  follows-other QueuePhase.queued b h = ground (arith)
  follows-other QueuePhase.selected b h = ground (arith)
  follows-other QueuePhase.dispatched b h = ground (arith)
  follows-other QueuePhase.retired b h = cc

  -- On a store that _load_state accepts, advance_queue_phase with the stored generation, the
  -- phase that follows and an event exactly for a dispatch returns the entry in that phase with
  -- its digest made anew, and writes it; the validation before the write never fails.
  pub advance_queue_phase-total :
      (s : SchedulerStore) (q : String) (e : QueueEntry) (p : QueuePhase) (event : Option String)
      → IsLoadable hash s
      → find_queue_entry s.queue q ≡ returns e
      → follows e.state p ≡ true
      → check_event p event ≡ returns tt
      → advance_queue_phase hash s q e.selection_generation p event
        ≡ returns (
          record s {
            queue = update_entries hash q (replace_entry hash e p e.selection_generation) s.queue;
          },
          replace_entry hash e p e.selection_generation,
        )
  unfolding advance_queue_phase move_entry write_phase IsLoadable
  advance_queue_phase-total s q e p event (n, h) found allowed good =
      let (same, valid, counted) = load_state-valid hash s s.queue n h in
      let name = (find_queue_entry-In s.queue q e found).1 in
      rw
        (
          h,
          found,
          ==-refl e.selection_generation,
          follows-other e.state p allowed,
          allowed,
          good,
          replace-written s q e p e.selection_generation valid found,
        )
        (ap
          (λ k. returns (
            record s {
              queue = update_entries hash k (replace_entry hash e p e.selection_generation) s.queue;
            },
            replace_entry hash e p e.selection_generation,
          ))
          name)
