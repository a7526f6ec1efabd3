-- ===== src/Portfolio/Store/Loadable.antt =====
-- Stores that `_load_state`
-- (skills/agentdesk/scripts/portfolio_scheduler_store.py) accepts, and writes.
use dockyard.Base.Sort
use dockyard.Base.{
  ℕ, ◌+◌, ◌≡◌, refl, sym, ap, subst, ◌∙◌, leb, ltb, ◌==◌, comparable_number, comparable_string,
  String, Bool, true, false, not, ◌&&◌, ◌||◌, List, [], ◌∷◌, ◌++◌, map, any, Option, none, some,
  returns, past, guarded, first_returns, arith,
}
use dockyard.Portfolio.Entry.{QueueEntry}
use dockyard.Portfolio.Codec.{Line}
use dockyard.Portfolio.Store.State.{
  SchedulerStore, load_state, load_queue, load_sequence, check_sequence, has_number,
  validate_queue_snapshot, counter_missing_with_queue, queue_sequence_above_counter,
  queue_sequence_unreserved,
}
use dockyard.Portfolio.Store.Queue.{insert_entry}
use dockyard.Portfolio.Store.Valid.{load_state-valid}
use mathlib.Core.Path.{ap₂}

abbrev pub sequences : List QueueEntry → List ℕ
sequences es = map (λ e. e.enqueue_sequence) es

any-sequences :
    (p : ℕ → Bool) (es : List QueueEntry)
    → any (λ e. p e.enqueue_sequence) es ≡ any p (sequences es)
any-sequences p [] = refl
any-sequences p (e ∷ es) = ap (λ b. p e.enqueue_sequence || b) (any-sequences p es)

any-same :
    (p : ℕ → Bool) (es fs : List QueueEntry)
    → sequences es ≡ sequences fs
    → any (λ e. p e.enqueue_sequence) es ≡ any (λ e. p e.enqueue_sequence) fs
any-same p es fs h = any-sequences p es ∙ ap (any p) h ∙ sym (any-sequences p fs)

pub load_sequence-same :
    (o : Option (ℕ × List ℕ)) (es fs : List QueueEntry)
    → sequences es ≡ sequences fs
    → load_sequence o es ≡ load_sequence o fs
unfolding load_sequence
load_sequence-same none es fs h = rw (any-same (λ n. true) es fs h) refl
load_sequence-same (some (n, ns)) es fs h =
    rw (any-same (λ m. ltb n m) es fs h, any-same (λ m. not (has_number m ns)) es fs h) refl

any-append {ℓ} :
    {A : Type ℓ} (p : A → Bool) (xs ys : List A) → any p (xs ++ ys) ≡ (any p xs || any p ys)
any-append p [] ys = refl
any-append p (x ∷ xs) ys = ground (arith, any-append p xs ys)

any-insert_by :
    {A : Type 0} (le : A → A → Bool) (p : A → Bool) (a : A) (xs : List A)
    → any p (Sort.insert_by le a xs) ≡ (p a || any p xs)
unfolding Sort.insert_by
any-insert_by le p a [] = refl
any-insert_by le p a (x ∷ xs) = ground (arith, any-insert_by le p a xs)

any-sort_by :
    {A : Type 0} (le : A → A → Bool) (p : A → Bool) (xs : List A)
    → any p (Sort.sort_by le xs) ≡ any p xs
unfolding Sort.sort_by
any-sort_by le p [] = refl
any-sort_by le p (x ∷ xs) =
    any-insert_by le p x (Sort.sort_by le xs) ∙ ap (λ b. p x || b) (any-sort_by le p xs)

any-insert_entry :
    (p : QueueEntry → Bool) (e : QueueEntry) (es : List QueueEntry)
    → any p es ≡ false
    → p e ≡ false
    → any p (insert_entry e es) ≡ false
unfolding insert_entry
any-insert_entry p e es h k =
    any-sort_by (λ x y. leb x.enqueue_sequence y.enqueue_sequence) p (es ++ (e ∷ []))
    ∙ any-append p es (e ∷ [])
    ∙ ground (arith)

any-weaker :
    {A : Type 0} (p q : A → Bool) (xs : List A)
    → ((x : A) → p x ≡ false → q x ≡ false)
    → any p xs ≡ false
    → any q xs ≡ false
any-weaker p q [] w h = refl
any-weaker p q (x ∷ xs) w h = ground (arith, w x, any-weaker p q xs w)

load_sequence-made :
    (n : ℕ) (ns : List ℕ) (es : List QueueEntry)
    → check_sequence n ns ≡ returns tt
    → any (λ e. ltb n e.enqueue_sequence) es ≡ false
    → any (λ e. not (has_number e.enqueue_sequence ns)) es ≡ false
    → load_sequence (some (n, ns)) es ≡ returns (n, ns)
unfolding load_sequence
load_sequence-made n ns es c h k = rw (c, h, k) refl

pub load_sequence-parts :
    (n : ℕ) (ns : List ℕ) (es : List QueueEntry) (p : ℕ × List ℕ)
    → load_sequence (some (n, ns)) es ≡ returns p
    → ((n, ns) ≡ p)
      × (check_sequence n ns ≡ returns tt)
      × (any (λ e. ltb n e.enqueue_sequence) es ≡ false)
      × (any (λ e. not (has_number e.enqueue_sequence ns)) es ≡ false)
unfolding load_sequence
load_sequence-parts n ns es p h =
    let c = first_returns (check_sequence n ns) _ p h in
    let (a, h₁) =
      guarded (not (any (λ e. ltb n e.enqueue_sequence) es)) queue_sequence_above_counter _
        (past (check_sequence n ns) _ p h) in
    let (b, h₂) =
      guarded (not (any (λ e. not (has_number e.enqueue_sequence ns)) es)) queue_sequence_unreserved
        _ h₁ in
    (ground (arith, h₂), c, ground (arith, a), ground (arith, b))

pub load_sequence-empty :
    (es : List QueueEntry) (p : ℕ × List ℕ)
    → load_sequence none es ≡ returns p
    → ((0, []) ≡ p) × (any (λ e. true) es ≡ false)
unfolding load_sequence
load_sequence-empty es p h =
    let (a, k) = guarded (not (any (λ e. true) es)) counter_missing_with_queue _ h in
    (ground (arith, k), ground (arith, a))

-- An entry with a number that was handed out may be inserted.
pub load_sequence-insert :
    (o : Option (ℕ × List ℕ)) (es : List QueueEntry) (e : QueueEntry) (p : ℕ × List ℕ)
    → load_sequence o es ≡ returns p
    → (leb e.enqueue_sequence p.0 && has_number e.enqueue_sequence p.1) ≡ true
    → load_sequence o (insert_entry e es) ≡ returns p
load_sequence-insert none es e p h k =
    let (none_issued, empty) = load_sequence-empty es p h in
    let k' : (leb e.enqueue_sequence 0 && has_number e.enqueue_sequence []) ≡ true =
      ap (λ q. leb e.enqueue_sequence q.0 && has_number e.enqueue_sequence q.1) none_issued ∙ k in
    absurd (ground (arith))
load_sequence-insert (some (n, ns)) es e p h k =
    let (same, c, a, b) = load_sequence-parts n ns es p h in
    let k' : (leb e.enqueue_sequence n && has_number e.enqueue_sequence ns) ≡ true =
      ap (λ q. leb e.enqueue_sequence q.0 && has_number e.enqueue_sequence q.1) same ∙ k in
    load_sequence-made n ns (insert_entry e es) c
      (any-insert_entry (λ x. ltb n x.enqueue_sequence) e es a (ground (arith)))
      (any-insert_entry (λ x. not (has_number x.enqueue_sequence ns)) e es b (ground (arith)))
    ∙ ap returns same

-- One more number may be handed out.
pub load_sequence-issue :
    (o : Option (ℕ × List ℕ)) (es : List QueueEntry) (p : ℕ × List ℕ)
    → load_sequence o es ≡ returns p
    → check_sequence (p.0 + 1) (p.1 ++ ((p.0 + 1) ∷ [])) ≡ returns tt
    → load_sequence (some (p.0 + 1, p.1 ++ ((p.0 + 1) ∷ []))) es
      ≡ returns (p.0 + 1, p.1 ++ ((p.0 + 1) ∷ []))
load_sequence-issue none [] p h k =
    load_sequence-made (p.0 + 1) (p.1 ++ ((p.0 + 1) ∷ [])) [] k refl refl
load_sequence-issue none (e ∷ es) p h k =
    let (none_issued, empty) = load_sequence-empty (e ∷ es) p h in cc
load_sequence-issue (some (n, ns)) es p h k =
    let (same, c, a, b) = load_sequence-parts n ns es p h in
    subst
      (λ q.
        check_sequence (q.0 + 1) (q.1 ++ ((q.0 + 1) ∷ [])) ≡ returns tt
        → load_sequence (some (q.0 + 1, q.1 ++ ((q.0 + 1) ∷ []))) es
          ≡ returns (q.0 + 1, q.1 ++ ((q.0 + 1) ∷ [])))
      same
      (λ k'.
        load_sequence-made (n + 1) (ns ++ ((n + 1) ∷ [])) es k'
          (any-weaker (λ e. ltb n e.enqueue_sequence) (λ e. ltb (n + 1) e.enqueue_sequence) es
            (λ e w. ground (arith)) a)
          (any-weaker (λ e. not (has_number e.enqueue_sequence ns))
            (λ e. not (has_number e.enqueue_sequence (ns ++ ((n + 1) ∷ [])))) es
            (λ e w. ground (arith, any-append (λ m. m == e.enqueue_sequence) ns ((n + 1) ∷ []))) b))
      k

module _ (hash : List Line → String) where
  -- `_load_state` accepts the store.
  unfoldable pub IsLoadable : SchedulerStore → Type 0
  IsLoadable s = (p : ℕ × List ℕ) × (load_state hash s ≡ returns (s.queue, p))

  load_state-made :
      (s : SchedulerStore) (p : ℕ × List ℕ)
      → validate_queue_snapshot hash s.queue ≡ returns tt
      → load_sequence s.sequence s.queue ≡ returns p
      → load_state hash s ≡ returns (s.queue, p)
  unfolding load_state load_queue
  load_state-made s p h k = rw (h, k) refl

  -- What an operation may do to the queue and the counter.
  pub data Write (s t : SchedulerStore) : Type 0 where
    same : t.queue ≡ s.queue → t.sequence ≡ s.sequence → Write s t
    rewritten :
        t.sequence ≡ s.sequence
        → sequences t.queue ≡ sequences s.queue
        → validate_queue_snapshot hash t.queue ≡ returns tt
        → Write s t
    inserted :
        (e : QueueEntry) (p : ℕ × List ℕ)
        → t.sequence ≡ s.sequence
        → t.queue ≡ insert_entry e s.queue
        → validate_queue_snapshot hash t.queue ≡ returns tt
        → load_sequence s.sequence s.queue ≡ returns p
        → (leb e.enqueue_sequence p.0 && has_number e.enqueue_sequence p.1) ≡ true
        → Write s t
    issued :
        (p : ℕ × List ℕ)
        → t.queue ≡ s.queue
        → t.sequence ≡ some (p.0 + 1, p.1 ++ ((p.0 + 1) ∷ []))
        → load_sequence s.sequence s.queue ≡ returns p
        → check_sequence (p.0 + 1) (p.1 ++ ((p.0 + 1) ∷ [])) ≡ returns tt
        → Write s t

  pub Write-IsLoadable : (s t : SchedulerStore) → Write s t → IsLoadable s → IsLoadable t
  unfolding IsLoadable
  Write-IsLoadable s t (same q c) (p, h) =
      let (e, valid, counted) = load_state-valid hash s s.queue p h in
      (
        p,
        load_state-made t p (ap (validate_queue_snapshot hash) q ∙ valid)
            (ap₂ load_sequence c q ∙ counted),
      )
  Write-IsLoadable s t (rewritten c q valid) (p, h) =
      let (e, old, counted) = load_state-valid hash s s.queue p h in
      (
        p,
        load_state-made t p valid (
            ap (λ o. load_sequence o t.queue) c
            ∙ load_sequence-same s.sequence t.queue s.queue q
            ∙ counted),
      )
  Write-IsLoadable s t (inserted e p c q valid counted new) h = (
    p,
    load_state-made t p valid
        (ap₂ load_sequence c q ∙ load_sequence-insert s.sequence s.queue e p counted new),
  )
  Write-IsLoadable s t (issued p q c counted contiguous) (p', h) =
      let (e, valid, k) = load_state-valid hash s s.queue p' h in
      (
        (p.0 + 1, p.1 ++ ((p.0 + 1) ∷ [])),
        load_state-made t (p.0 + 1, p.1 ++ ((p.0 + 1) ∷ []))
            (ap (validate_queue_snapshot hash) q ∙ valid)
            (ap₂ load_sequence c q ∙ load_sequence-issue s.sequence s.queue p counted contiguous),
      )
