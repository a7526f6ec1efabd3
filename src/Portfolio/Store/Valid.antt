-- ===== src/Portfolio/Store/Valid.antt =====
-- Queues that pass `_validate_queue_snapshot`
-- (skills/agentdesk/scripts/portfolio_scheduler_store.py), and the update of an entry.
use dockyard.Base.{
  ℕ, ◌≡◌, refl, sym, ap, subst, ◌∙◌, ◌≢◌, ◌==◌, comparable_number, comparable_string, String, Bool,
  true, false, List, [], ◌∷◌, any, some, if◌then◌else◌, Attempt, returns, past, peel, first_returns,
  arith, All, All-map, inl, inr, Bool-cases, eq_of_==,
}
use dockyard.Base.Members.{In}
use dockyard.Portfolio.Entry.{QueueEntry}
use dockyard.Portfolio.Codec.{Line, entry_lines}
use dockyard.Portfolio.Policy.Ranks.{Distinct, Distinct-id}
use dockyard.Portfolio.Store.State.{
  StoreError, SchedulerStore, check_keys, validate_entries, validate_queue_snapshot,
  ensure_entry_digest, load_queue, load_state, load_sequence, find_entry, find_queue_entry,
  update_entries,
}

pub find_entry-In :
    (q : String) (es : List QueueEntry) (e : QueueEntry)
    → find_entry q es ≡ some e
    → In e es × (e.queue_id ≡ q)
find_entry-In q [] e h = cc
find_entry-In q (x ∷ xs) e h = elim (Bool-cases (x.queue_id == q)) [
  | inl t ↦ let k : some x ≡ some e = rw t at h in (inl (cc), ground (arith))
  | inr f ↦
      let k : find_entry q xs ≡ some e = rw f at h in
      let (i, n) = find_entry-In q xs e k in (inr i, n)
]

pub find_queue_entry-In :
    (es : List QueueEntry) (q : String) (e : QueueEntry)
    → find_queue_entry es q ≡ returns e
    → In e es × (e.queue_id ≡ q)
unfolding find_queue_entry
find_queue_entry-In es q e h = ground (arith, find_entry-In q es e)

-- The four fields by which a queue is ordered and entries are told apart.
pub record SameIdentity (e f : QueueEntry) : Type 0 where
  pub same_queue_id : e.queue_id ≡ f.queue_id
  pub same_task_id : e.task_id ≡ f.task_id
  pub same_revision : e.revision ≡ f.revision
  pub same_sequence : e.enqueue_sequence ≡ f.enqueue_sequence

new_id :
    (p : ℕ) (ns : List ℕ) (ids : List String) (rs : List (String × ℕ)) (n : ℕ) (q t : String)
    (r : ℕ)
    → check_keys p ns ids rs n q t r ≡ returns tt
    → any (λ i. i == q) ids ≡ false
unfolding check_keys
new_id p ns ids rs n q t r h = ground (arith)

module _ (hash : List Line → String) where
  validate_entries_parts :
      (p : ℕ) (ns : List ℕ) (ids : List String) (rs : List (String × ℕ)) (e : QueueEntry)
      (es : List QueueEntry)
      → validate_entries hash p ns ids rs (e ∷ es) ≡ returns tt
      → (check_keys p ns ids rs e.enqueue_sequence e.queue_id e.task_id e.revision ≡ returns tt)
        × (validate_entries hash e.enqueue_sequence
              (e.enqueue_sequence ∷ ns)
              (e.queue_id ∷ ids)
              ((e.task_id, e.revision) ∷ rs)
              es
            ≡ returns tt)
  unfolding validate_entries
  validate_entries_parts p ns ids rs e es h =
      let k = past (ensure_entry_digest hash e) _ tt h in
      (
        first_returns (check_keys p ns ids rs e.enqueue_sequence e.queue_id e.task_id e.revision) _
            tt k,
        past (check_keys p ns ids rs e.enqueue_sequence e.queue_id e.task_id e.revision) _ tt k,
      )

  own_digest :
      (p : ℕ) (ns : List ℕ) (ids : List String) (rs : List (String × ℕ)) (e : QueueEntry)
      (es : List QueueEntry)
      → validate_entries hash p ns ids rs (e ∷ es) ≡ returns tt
      → e.content_digest ≡ hash (entry_lines e false [])
  unfolding validate_entries ensure_entry_digest
  own_digest p ns ids rs e es h =
      let k = first_returns (ensure_entry_digest hash e) _ tt h in ground (arith, k)

  -- An entry may be replaced by one with the same identity and its own digest.
  validate_entries-replace :
      (p : ℕ) (ns : List ℕ) (ids : List String) (rs : List (String × ℕ)) (e x : QueueEntry)
      (es fs : List QueueEntry)
      → SameIdentity e x
      → x.content_digest ≡ hash (entry_lines x false [])
      → validate_entries hash p ns ids rs (e ∷ es) ≡ returns tt
      → validate_entries hash e.enqueue_sequence
          (e.enqueue_sequence ∷ ns)
          (e.queue_id ∷ ids)
          ((e.task_id, e.revision) ∷ rs)
          fs
        ≡ returns tt
      → validate_entries hash p ns ids rs (x ∷ fs) ≡ returns tt
  unfolding validate_entries ensure_entry_digest
  validate_entries-replace p ns ids rs e x es fs same fresh h k =
      let (keys, rest) = validate_entries_parts p ns ids rs e es h in
      ground (
        arith, keys, k, fresh, same.same_queue_id, same.same_task_id, same.same_revision,
        same.same_sequence,
      )

  validate_entries-Distinct :
      (p : ℕ) (ns : List ℕ) (ids : List String) (rs : List (String × ℕ)) (es : List QueueEntry)
      → validate_entries hash p ns ids rs es ≡ returns tt
      → Distinct es × All (λ e. any (λ q. q == e.queue_id) ids ≡ false) es
  validate_entries-Distinct p ns ids rs [] h = (tt, tt)
  validate_entries-Distinct p ns ids rs (e ∷ es) h =
      let (keys, rest) = validate_entries_parts p ns ids rs e es h in
      let new = new_id p ns ids rs e.enqueue_sequence e.queue_id e.task_id e.revision keys in
      let (d, u) =
        validate_entries-Distinct e.enqueue_sequence (e.enqueue_sequence ∷ ns) (e.queue_id ∷ ids)
          ((e.task_id, e.revision) ∷ rs) es rest in
      (
        (
          All-map (λ f. any (λ q. q == f.queue_id) (e.queue_id ∷ ids) ≡ false)
              (λ f. e.queue_id ≢ f.queue_id) (λ f k same. ground (arith)) es u,
          d,
        ),
        (
          new,
          All-map (λ f. any (λ q. q == f.queue_id) (e.queue_id ∷ ids) ≡ false)
              (λ f. any (λ q. q == f.queue_id) ids ≡ false) (λ f k. ground (arith)) es u,
        ),
      )

  pub validate_queue_snapshot-Distinct :
      (es : List QueueEntry) → validate_queue_snapshot hash es ≡ returns tt → Distinct es
  unfolding validate_queue_snapshot
  validate_queue_snapshot-Distinct es h = (validate_entries-Distinct 0 [] [] [] es h).0

  -- Replacing the entry of an id by one with the same identity and its own digest.
  validate_entries-update :
      (q : String) (u : QueueEntry)
      → u.content_digest ≡ hash (entry_lines u false [])
      → (p : ℕ) (ns : List ℕ) (ids : List String) (rs : List (String × ℕ)) (es : List QueueEntry)
      → All (λ e. e.queue_id ≡ q → SameIdentity e u) es
      → validate_entries hash p ns ids rs es ≡ returns tt
      → validate_entries hash p ns ids rs (update_entries hash q u es) ≡ returns tt
  unfolding validate_entries update_entries
  validate_entries-update q u fresh p ns ids rs [] s h = refl
  validate_entries-update q u fresh p ns ids rs (e ∷ es) s h =
      let (keys, rest) = validate_entries_parts p ns ids rs e es h in
      let (same, own) =
        chosen (e.queue_id == q) (λ t. s.0 (eq_of_== e.queue_id q t))
          (own_digest p ns ids rs e es h) in
      validate_entries-replace p ns ids rs e (if e.queue_id == q then u else e) es
        (update_entries hash q u es) same own h
        (validate_entries-update q u fresh e.enqueue_sequence (e.enqueue_sequence ∷ ns)
          (e.queue_id ∷ ids) ((e.task_id, e.revision) ∷ rs) es s.1 rest)
    where
      chosen :
          (b : Bool)
          → (b ≡ true → SameIdentity e u)
          → e.content_digest ≡ hash (entry_lines e false [])
          → SameIdentity e (if b then u else e)
            × ((if b then u else e).content_digest
                ≡ hash (entry_lines (if b then u else e) false []))
      chosen true k d = (k refl, fresh)
      chosen false k d = (
        record {
          same_queue_id = refl;
          same_task_id = refl;
          same_revision = refl;
          same_sequence = refl;
        },
        d,
      )

  pub update_entries-valid :
      (es : List QueueEntry) (current u : QueueEntry)
      → validate_queue_snapshot hash es ≡ returns tt
      → In current es
      → SameIdentity current u
      → u.content_digest ≡ hash (entry_lines u false [])
      → validate_queue_snapshot hash (update_entries hash current.queue_id u es) ≡ returns tt
  unfolding validate_queue_snapshot
  update_entries-valid es current u h i same fresh =
      validate_entries-update current.queue_id u fresh 0 [] [] [] es
        (All-map (λ e. e.queue_id ≡ current.queue_id → e ≡ current)
          (λ e. e.queue_id ≡ current.queue_id → SameIdentity e u)
          (λ e k n. subst (λ x. SameIdentity x u) (sym (k n)) same) es
          (Distinct-id current es (validate_entries-Distinct 0 [] [] [] es h).0 i))
        h

  -- What a successful load says.
  pub load_queue-valid :
      (s : SchedulerStore) (entries : List QueueEntry)
      → load_queue hash s ≡ returns entries
      → (entries ≡ s.queue) × (validate_queue_snapshot hash s.queue ≡ returns tt)
  unfolding load_queue
  load_queue-valid s entries h =
      let k = past (validate_queue_snapshot hash s.queue) _ entries h in
      (returned k, first_returns (validate_queue_snapshot hash s.queue) _ entries h)
    where
      returned :
          ◌≡◌ {A = Attempt StoreError (List QueueEntry)} (returns s.queue) (returns entries)
          → entries ≡ s.queue
      returned k = cc

  pub load_state-valid :
      (s : SchedulerStore) (entries : List QueueEntry) (sequence : ℕ × List ℕ)
      → load_state hash s ≡ returns (entries, sequence)
      → (entries ≡ s.queue)
        × (validate_queue_snapshot hash s.queue ≡ returns tt)
        × (load_sequence s.sequence entries ≡ returns sequence)
  unfolding load_state
  load_state-valid s entries sequence h =
      let (es, first, h₁) = peel (load_queue hash s) _ (entries, sequence) h in
      let (n, second, h₂) = peel (load_sequence s.sequence es) _ (entries, sequence) h₁ in
      let (same, valid) = load_queue-valid s es first in
      (
        sym (left h₂) ∙ same,
        valid,
        subst (λ x. load_sequence s.sequence x ≡ returns sequence) (left h₂)
            (second ∙ ap returns (right h₂)),
      )
    where
      left :
          {a b : List QueueEntry} {x y : ℕ × List ℕ}
          → ◌≡◌ {A = Attempt StoreError (List QueueEntry × (ℕ × List ℕ))}
              (returns (a, x))
              (returns (b, y))
          → a ≡ b
      left k = ground (arith)

      right :
          {a b : List QueueEntry} {x y : ℕ × List ℕ}
          → ◌≡◌ {A = Attempt StoreError (List QueueEntry × (ℕ × List ℕ))}
              (returns (a, x))
              (returns (b, y))
          → x ≡ y
      right k = ground (arith)
