-- ===== src/Portfolio/Store/Moves.antt =====
-- What the operations on queue entries of
-- skills/agentdesk/scripts/portfolio_scheduler_store.py write.
use dockyard.Base.{
  ℕ, ◌+◌, ◌<◌, ◌≤◌, ◌≡◌, refl, sym, ap, subst, ◌∙◌, ◌==◌, comparable_number, comparable_string,
  String, leb, true, ◌&&◌, List, [], ◌∷◌, ◌++◌, Option, none, some, Attempt, returns, require,
  ◌>>=◌, past, peel, arith, inl, inr, ◌⊎◌,
}
use dockyard.Base.Members.{In}
use dockyard.Portfolio.Entry.{QueueEntry, QueuePhase, comparable_phase, comparable_receipt_phase}
use dockyard.Portfolio.Codec.{Line}
use dockyard.Portfolio.Policy.Ranks.{Distinct}
use dockyard.Portfolio.Store.State.{
  StoreError, SchedulerStore, queue_generation_stale, queue_create_phase,
  enqueue_sequence_unreserved, comparable_tombstone, has_number, ensure_entry_digest, load_state,
  load_queue, load_sequence, write_queue, write_sequence, check_sequence, find_queue_entry,
  validate_queue_snapshot, replace_entry, update_entries,
}
use dockyard.Portfolio.Store.Queue.{
  follows, write_phase, check_existing, insert_entry, store_entry, reserve_enqueue_sequence,
  create_queue_entry, move_entry, advance_queue_phase,
}
use dockyard.Portfolio.Store.Valid.{
  load_state-valid, find_queue_entry-In, validate_queue_snapshot-Distinct,
}
use dockyard.Portfolio.Store.Growth.{
  Grows, Grows-refl, phase_rank, last_issued, update-Grows, insert-Grows,
}

-- What the operations that look an entry up start from.
pub record Found (s : SchedulerStore) (entries : List QueueEntry) (e : QueueEntry) : Type 0 where
  pub loaded : entries ≡ s.queue
  pub distinct : Distinct s.queue
  pub stored : In e s.queue

module _ (hash : List Line → String) where
  pub load_state-Found :
      (s : SchedulerStore) (entries : List QueueEntry) (sequence : ℕ × List ℕ) (q : String)
      (e : QueueEntry)
      → load_state hash s ≡ returns (entries, sequence)
      → find_queue_entry entries q ≡ returns e
      → Found s entries e × (e.queue_id ≡ q)
  load_state-Found s entries sequence q e h k =
      let (same, valid, n) = load_state-valid hash s entries sequence h in
      let (i, id) = find_queue_entry-In entries q e k in
      (
        record {
          loaded = same;
          distinct = validate_queue_snapshot-Distinct hash s.queue valid;
          stored = subst (λ x. In e x) same i;
        },
        id,
      )

  pub write_queue-returns :
      (s : SchedulerStore) (es : List QueueEntry) (t : SchedulerStore)
      → write_queue hash s es ≡ returns t
      → t ≡ record s { queue = es }
  unfolding write_queue
  write_queue-returns s es t h = ground (arith, past (validate_queue_snapshot hash es) _ t h)

  -- An entry moved by `_replace_entry`, the store written with it.
  pub replace-Grows :
      (s : SchedulerStore) (entries : List QueueEntry) (e : QueueEntry) (p : QueuePhase) (g : ℕ)
      (t : SchedulerStore)
      → Found s entries e
      → (e.selection_generation < g)
        ⊎ ((e.selection_generation ≡ g) × (phase_rank e.state ≤ phase_rank p))
      → write_queue hash s (update_entries hash e.queue_id (replace_entry hash e p g) entries)
        ≡ returns t
      → Grows s t
  unfolding replace_entry
  replace-Grows s entries e p g t f forward h =
      subst (λ x. Grows s x)
        (sym (
          write_queue-returns s _ t h
          ∙ ap
              (λ es. record s {
                queue = update_entries hash e.queue_id (replace_entry hash e p g) es;
              })
              f.loaded))
        (update-Grows hash s e (replace_entry hash e p g) f.distinct f.stored (record {
          identity = record {
            same_queue_id = refl;
            same_task_id = refl;
            same_revision = refl;
            same_sequence = refl;
          };
          forward = forward;
        }))

  follows-rank : (a b : QueuePhase) → follows a b ≡ true → phase_rank a ≤ phase_rank b
  follows-rank a b h = ground (arith)

  write_phase-Grows :
      (s : SchedulerStore) (entries : List QueueEntry) (e : QueueEntry) (p : QueuePhase)
      (t : SchedulerStore) (f : QueueEntry)
      → Found s entries e
      → follows e.state p ≡ true
      → write_phase hash s entries e p ≡ returns (t, f)
      → Grows s t
  unfolding write_phase
  write_phase-Grows s entries e p t f found allowed h =
      let (u, written, k) =
        peel
          (write_queue hash s (
            update_entries hash e.queue_id (replace_entry hash e p e.selection_generation) entries))
          _ (t, f) h in
      replace-Grows s entries e p e.selection_generation t found
        (inr (refl, follows-rank e.state p allowed)) (written ∙ ground (arith))

  pub move_entry-cases :
      (s : SchedulerStore) (entries : List QueueEntry) (e : QueueEntry) (p : QueuePhase)
      (event : Option String) (t : SchedulerStore) (f : QueueEntry)
      → move_entry hash s entries e p event ≡ returns (t, f)
      → (t ≡ s) ⊎ ((follows e.state p ≡ true) × (write_phase hash s entries e p ≡ returns (t, f)))
  unfolding move_entry
  move_entry-cases s entries e p event t f h = ground (arith)

  -- The operations begin with a load and a search.
  pub with_entry :
      {B : Type 0} (s : SchedulerStore) (q : String)
      (next : List QueueEntry × (ℕ × List ℕ) → QueueEntry → Attempt StoreError B) (b : B)
      → (load_state hash s >>= λ x. find_queue_entry x.0 q >>= next x) ≡ returns b
      → (x : List QueueEntry × (ℕ × List ℕ)) × (e : QueueEntry) × Found s x.0 e
        × (e.queue_id ≡ q)
        × (next x e ≡ returns b)
  with_entry s q next b h =
      let (x, loaded, h₁) = peel (load_state hash s) _ b h in
      let (e, found, h₂) = peel (find_queue_entry x.0 q) _ b h₁ in
      let (f, id) = load_state-Found s x.0 x.1 q e loaded found in (x, e, f, id, h₂)

  pub advance_queue_phase-Grows :
      (s : SchedulerStore) (q : String) (g : ℕ) (p : QueuePhase) (event : Option String)
      (t : SchedulerStore) (f : QueueEntry)
      → advance_queue_phase hash s q g p event ≡ returns (t, f)
      → Grows s t
  unfolding advance_queue_phase
  advance_queue_phase-Grows s q g p event t f h =
      let (x, e, found, id, k) = with_entry s q _ (t, f) h in
      let moved = past (require (e.selection_generation == g) queue_generation_stale) _ (t, f) k in
      elim (move_entry-cases s x.0 e p event t f moved) [
        | inl same ↦ subst (λ y. Grows s y) (sym same) (Grows-refl s)
        | inr (allowed, written) ↦ write_phase-Grows s x.0 e p t f found allowed written
      ]

  load_sequence-last :
      (o : Option (ℕ × List ℕ)) (es : List QueueEntry) (p : ℕ × List ℕ)
      → load_sequence o es ≡ returns p
      → p.0 ≡ last_issued o
  unfolding load_sequence
  load_sequence-last none es p h = ground (arith)
  load_sequence-last (some (n, ns)) es p h = ground (arith)

  write_sequence-returns :
      (s : SchedulerStore) (n : ℕ) (ns : List ℕ) (t : SchedulerStore)
      → write_sequence hash s n ns ≡ returns t
      → t ≡ record s { sequence = some (n, ns) }
  unfolding write_sequence
  write_sequence-returns s n ns t h = ground (arith, past (check_sequence n ns) _ t h)

  -- A number handed out is the successor of the last one.
  pub reserve_enqueue_sequence-returns :
      (s t : SchedulerStore) (n : ℕ)
      → reserve_enqueue_sequence hash s ≡ returns (t, n)
      → (n ≡ last_issued s.sequence + 1)
        × (ns : List ℕ) × (t ≡ record s { sequence = some (n, ns) })
  unfolding reserve_enqueue_sequence write_sequence
  reserve_enqueue_sequence-returns s t n h =
      let (es, loaded, h₁) = peel (load_queue hash s) _ (t, n) h in
      let (p, sequence, h₂) = peel (load_sequence s.sequence es) _ (t, n) h₁ in
      let (u, written, h₃) =
        peel (write_sequence hash s (p.0 + 1) (p.1 ++ ((p.0 + 1) ∷ []))) _ (t, n) h₂ in
      issued p u (load_sequence-last s.sequence es p sequence)
        (write_sequence-returns s (p.0 + 1) (p.1 ++ ((p.0 + 1) ∷ [])) u written) h₃
    where
      issued :
          (p : ℕ × List ℕ) (u : SchedulerStore)
          → p.0 ≡ last_issued s.sequence
          → u ≡ record s { sequence = some (p.0 + 1, p.1 ++ ((p.0 + 1) ∷ [])) }
          → ◌≡◌ {A = Attempt StoreError (SchedulerStore × ℕ)}
              (returns (u, p.0 + 1))
              (returns (t, n))
          → (n ≡ last_issued s.sequence + 1)
            × (ns : List ℕ) × (t ≡ record s { sequence = some (n, ns) })
      issued p u last made h =
          let number : p.0 + 1 ≡ n = ground (arith) in
          let store : u ≡ t = ground (arith) in
          (
            sym number ∙ ap (λ m. m + 1) last,
            p.1 ++ ((p.0 + 1) ∷ []),
            sym store
                ∙ made
                ∙ ap (λ m. record s { sequence = some (m, p.1 ++ ((p.0 + 1) ∷ [])) }) number,
          )

  store_entry-Grows :
      (s : SchedulerStore) (e : QueueEntry) (entries : List QueueEntry) (o : Option QueueEntry)
      (t : SchedulerStore) (f : QueueEntry)
      → entries ≡ s.queue
      → store_entry hash s e entries o ≡ returns (t, f)
      → Grows s t
  unfolding store_entry
  store_entry-Grows s e entries (some x) t f same h =
      subst (λ y. Grows s y) (ground (arith)) (Grows-refl s)
  store_entry-Grows s e entries none t f same h =
      let (u, written, k) = peel (write_queue hash s (insert_entry e entries)) _ (t, f) h in
      subst (λ y. Grows s y)
        (sym (
          write_queue-returns s _ t (written ∙ ground (arith))
          ∙ ap (λ es. record s { queue = insert_entry e es }) same))
        (insert-Grows s e)

  pub create_queue_entry-Grows :
      (s : SchedulerStore) (e : QueueEntry) (t : SchedulerStore) (f : QueueEntry)
      → create_queue_entry hash s e ≡ returns (t, f)
      → Grows s t
  unfolding create_queue_entry
  create_queue_entry-Grows s e t f h =
      let k = past (ensure_entry_digest hash e) _ (t, f) h in
      let k₁ = past (require (e.state == QueuePhase.queued) queue_create_phase) _ (t, f) k in
      let (x, loaded, k₂) = peel (load_state hash s) _ (t, f) k₁ in
      let k₃ =
        past
          (require (leb e.enqueue_sequence x.1.0 && has_number e.enqueue_sequence x.1.1)
            enqueue_sequence_unreserved)
          _ (t, f) k₂ in
      let (o, checked, k₄) = peel (check_existing e x.0) _ (t, f) k₃ in
      store_entry-Grows s e x.0 o t f (load_state-valid hash s x.0 x.1 loaded).0 k₄
