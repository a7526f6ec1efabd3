-- ===== src/Portfolio/Store/Writes.antt =====
-- Each operation of skills/agentdesk/scripts/portfolio_scheduler_store.py writes the queue and the
-- counter in one of the ways of Loadable.
use dockyard.Base.{
  ℕ, suc, ◌+◌, ◌≡◌, refl, sym, ap, ◌∙◌, leb, ◌==◌, comparable_number, comparable_string, String,
  true, ◌&&◌, List, [], ◌∷◌, ◌++◌, Option, none, some, returns, require, past, peel, guarded,
  first_returns, arith, inl, inr, Bool-cases, eq_of_==,
}
use dockyard.Base.Members.{In, All-In}
use dockyard.Portfolio.Entry.{QueueEntry, QueuePhase, comparable_phase, comparable_receipt_phase}
use dockyard.Portfolio.Codec.{Line}
use dockyard.Portfolio.Policy.Ranks.{Distinct-id}
use dockyard.Portfolio.Store.State.{
  SchedulerStore, Tombstone, load_state, load_queue, load_sequence, check_sequence, has_number,
  validate_queue_snapshot, update_entries, replace_entry, write_queue, write_sequence,
  queue_create_phase, queue_generation_stale, enqueue_sequence_unreserved, ensure_entry_digest,
}
use dockyard.Portfolio.Store.Queue.{
  insert_entry, check_existing, store_entry, write_phase, reserve_enqueue_sequence,
  create_queue_entry, advance_queue_phase,
}
use dockyard.Portfolio.Store.Receipts.{write_tombstone, requeue, recover_selected_without_dispatch}
use dockyard.Portfolio.Store.Valid.{load_state-valid, load_queue-valid}
use dockyard.Portfolio.Store.Loadable.{Write, same, rewritten, inserted, issued, sequences}
use dockyard.Portfolio.Store.Moves.{Found, with_entry, move_entry-cases}
use dockyard.Portfolio.Store.Recover.{recover_from-cases, buried-Found}
use mathlib.Core.Path.{ap₂}

module _ (hash : List Line → String) where
  write_queue-written :
      (s : SchedulerStore) (es : List QueueEntry) (t : SchedulerStore)
      → write_queue hash s es ≡ returns t
      → (t ≡ record s { queue = es }) × (validate_queue_snapshot hash es ≡ returns tt)
  unfolding write_queue
  write_queue-written s es t h = (
    ground (arith, past (validate_queue_snapshot hash es) _ t h),
    first_returns (validate_queue_snapshot hash es) _ t h,
  )

  update-sequences :
      (q : String) (u : QueueEntry) (es : List QueueEntry)
      → ((e : QueueEntry) → In e es → e.queue_id ≡ q → e.enqueue_sequence ≡ u.enqueue_sequence)
      → sequences (update_entries hash q u es) ≡ sequences es
  unfolding update_entries
  update-sequences q u [] h = refl
  update-sequences q u (e ∷ es) h =
      let rest = update-sequences q u es (λ f i. h f (inr i)) in
      elim (Bool-cases (e.queue_id == q)) [
        | inl t ↦ rw t (ap₂ (λ n ns. n ∷ ns) (sym (h e (inl refl) (eq_of_== e.queue_id q t))) rest)
        | inr f ↦ rw f (ap (λ ns. e.enqueue_sequence ∷ ns) rest)
      ]

  pub replace-Write :
      (s : SchedulerStore) (entries : List QueueEntry) (e : QueueEntry) (p : QueuePhase) (g : ℕ)
      (t : SchedulerStore)
      → Found s entries e
      → write_queue hash s (update_entries hash e.queue_id (replace_entry hash e p g) entries)
        ≡ returns t
      → Write hash s t
  unfolding replace_entry
  replace-Write s entries e p g t found h =
      let (made, valid) = write_queue-written s _ t h in
      let queue : t.queue ≡ update_entries hash e.queue_id (replace_entry hash e p g) s.queue =
        ap (λ x. x.queue) made
        ∙ ap (update_entries hash e.queue_id (replace_entry hash e p g)) found.loaded in
      rewritten (ap (λ x. x.sequence) made)
        (ap sequences queue
          ∙ update-sequences e.queue_id (replace_entry hash e p g) s.queue (λ f i name.
            ap (λ x. x.enqueue_sequence)
              (All-In (λ f. f.queue_id ≡ e.queue_id → f ≡ e) f s.queue
                (Distinct-id e s.queue found.distinct found.stored) i name)))
        (ap (λ x. validate_queue_snapshot hash x.queue) made ∙ valid)

  equal-Write : (s t : SchedulerStore) → t ≡ s → Write hash s t
  equal-Write s t h = same (ap (λ x. x.queue) h) (ap (λ x. x.sequence) h)

  pub advance_queue_phase-Write :
      (s : SchedulerStore) (q : String) (g : ℕ) (p : QueuePhase) (event : Option String)
      (t : SchedulerStore) (f : QueueEntry)
      → advance_queue_phase hash s q g p event ≡ returns (t, f)
      → Write hash s t
  unfolding advance_queue_phase write_phase
  advance_queue_phase-Write s q g p event t f h =
      let (x, e, found, id, k) = with_entry hash s q _ (t, f) h in
      let moved = past (require (e.selection_generation == g) queue_generation_stale) _ (t, f) k in
      elim (move_entry-cases hash s x.0 e p event t f moved) [
        | inl equal ↦ equal-Write s t equal
        | inr (allowed, written) ↦
            let (u, wrote, k₁) =
              peel
                (write_queue hash s (
                  update_entries hash e.queue_id (replace_entry hash e p e.selection_generation)
                    x.0))
                _ (t, f) written in
            replace-Write s x.0 e p e.selection_generation t found (wrote ∙ ground (arith))
      ]

  requeue-Write :
      (s : SchedulerStore) (entries : List QueueEntry) (e : QueueEntry) (t : SchedulerStore)
      (f : QueueEntry)
      → Found s entries e
      → requeue hash s entries e ≡ returns (t, f)
      → Write hash s t
  unfolding requeue
  requeue-Write s entries e t f found h =
      let (u, wrote, k) =
        peel
          (write_queue hash s (
            update_entries hash e.queue_id
              (replace_entry hash e QueuePhase.queued (suc e.selection_generation)) entries))
          _ (t, f) h in
      replace-Write s entries e QueuePhase.queued (suc e.selection_generation) t found
        (wrote ∙ ground (arith))

  unburied-Write :
      (s : SchedulerStore) (id : String) (x : Tombstone) (t : SchedulerStore)
      → Write hash (write_tombstone s id x) t
      → Write hash s t
  unfolding write_tombstone
  unburied-Write s id x t (same q c) = same q c
  unburied-Write s id x t (rewritten c q v) = rewritten c q v
  unburied-Write s id x t (inserted e p c q v l n) = inserted e p c q v l n
  unburied-Write s id x t (issued p q c l k) = issued p q c l k

  pub recover-Write :
      (s : SchedulerStore) (q : String) (g : ℕ) (id now : String) (t : SchedulerStore)
      (f : QueueEntry)
      → recover_selected_without_dispatch hash s q g id now ≡ returns (t, f)
      → Write hash s t
  unfolding recover_selected_without_dispatch
  recover-Write s q g id now t f h =
      let (x, e, found, name, k) = with_entry hash s q _ (t, f) h in
      elim (recover_from-cases hash s x.0 e g id now (s.tombstones id) t f k) [
        | inl equal ↦ equal-Write s t equal
        | inr (inl again) ↦ requeue-Write s x.0 e t f found again
        | inr (inr (none_yet, y, buried)) ↦ unburied-Write s id y t (
            requeue-Write (write_tombstone s id y) x.0 e t f (buried-Found hash s id y x.0 e found)
              buried)
      ]

  store_entry-Write :
      (s : SchedulerStore) (e : QueueEntry) (entries : List QueueEntry) (p : ℕ × List ℕ)
      (o : Option QueueEntry) (t : SchedulerStore) (f : QueueEntry)
      → entries ≡ s.queue
      → load_sequence s.sequence s.queue ≡ returns p
      → (leb e.enqueue_sequence p.0 && has_number e.enqueue_sequence p.1) ≡ true
      → store_entry hash s e entries o ≡ returns (t, f)
      → Write hash s t
  unfolding store_entry
  store_entry-Write s e entries p (some x) t f equal counted handed h =
      equal-Write s t (ground (arith))
  store_entry-Write s e entries p none t f equal counted handed h =
      let (u, wrote, k) = peel (write_queue hash s (insert_entry e entries)) _ (t, f) h in
      let (made, valid) = write_queue-written s _ t (wrote ∙ ground (arith)) in
      inserted e p (ap (λ x. x.sequence) made) (ap (λ x. x.queue) made ∙ ap (insert_entry e) equal)
        (ap (λ x. validate_queue_snapshot hash x.queue) made ∙ valid) counted handed

  pub create_queue_entry-Write :
      (s : SchedulerStore) (e : QueueEntry) (t : SchedulerStore) (f : QueueEntry)
      → create_queue_entry hash s e ≡ returns (t, f)
      → Write hash s t
  unfolding create_queue_entry
  create_queue_entry-Write s e t f h =
      let k = past (ensure_entry_digest hash e) _ (t, f) h in
      let k₁ = past (require (e.state == QueuePhase.queued) queue_create_phase) _ (t, f) k in
      let (x, loaded, k₂) = peel (load_state hash s) _ (t, f) k₁ in
      let (handed, k₃) =
        guarded (leb e.enqueue_sequence x.1.0 && has_number e.enqueue_sequence x.1.1)
          enqueue_sequence_unreserved _ k₂ in
      let (o, checked, k₄) = peel (check_existing e x.0) _ (t, f) k₃ in
      let (equal, valid, counted) = load_state-valid hash s x.0 x.1 loaded in
      store_entry-Write s e x.0 x.1 o t f equal
        (ap (load_sequence s.sequence) (sym equal) ∙ counted) handed k₄

  write_sequence-written :
      (s : SchedulerStore) (n : ℕ) (ns : List ℕ) (t : SchedulerStore)
      → write_sequence hash s n ns ≡ returns t
      → (t ≡ record s { sequence = some (n, ns) }) × (check_sequence n ns ≡ returns tt)
  unfolding write_sequence
  write_sequence-written s n ns t h =
      (ground (arith, past (check_sequence n ns) _ t h), first_returns (check_sequence n ns) _ t h)

  pub reserve_enqueue_sequence-Write :
      (s t : SchedulerStore) (n : ℕ)
      → reserve_enqueue_sequence hash s ≡ returns (t, n)
      → Write hash s t
  unfolding reserve_enqueue_sequence
  reserve_enqueue_sequence-Write s t n h =
      let (es, loaded, h₁) = peel (load_queue hash s) _ (t, n) h in
      let (p, counted, h₂) = peel (load_sequence s.sequence es) _ (t, n) h₁ in
      let (u, wrote, h₃) =
        peel (write_sequence hash s (p.0 + 1) (p.1 ++ ((p.0 + 1) ∷ []))) _ (t, n) h₂ in
      let (made, contiguous) =
        write_sequence-written s (p.0 + 1) (p.1 ++ ((p.0 + 1) ∷ [])) t (wrote ∙ ground (arith)) in
      issued p (ap (λ x. x.queue) made) (ap (λ x. x.sequence) made)
        (ap (load_sequence s.sequence) (sym (load_queue-valid hash s es loaded).0) ∙ counted)
        contiguous
