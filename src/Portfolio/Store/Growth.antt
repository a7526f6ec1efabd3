-- ===== src/Portfolio/Store/Growth.antt =====
-- An order on the stores of skills/agentdesk/scripts/portfolio_scheduler_store.py, by
-- the phases of entries and receipts and by the evidence they hold.
use dockyard.Base.Sort
use dockyard.Base.{
  ℕ, ◌<◌, ◌≤◌, ◌≡◌, refl, sym, ap, subst, ◌∙◌, ◌==◌, comparable_number, comparable_string, String,
  List, [], ◌∷◌, ◌++◌, leb, Option, none, some, arith, inl, inr, ◌⊎◌, Bool-cases, eq_of_==,
}
use dockyard.Base.Members.{In, All-In}
use dockyard.Portfolio.Entry.{QueueEntry, QueuePhase, ReceiptPhase, ScheduleReceipt}
use dockyard.Portfolio.Codec.{Line}
use dockyard.Portfolio.Policy.Ranks.{Distinct, Distinct-id}
use dockyard.Portfolio.Store.State.{SchedulerStore, Tombstone, update_entries, put, put_generation}
use dockyard.Portfolio.Store.Queue.{insert_entry}
use dockyard.Portfolio.Store.Receipts.{write_receipt, write_tombstone, reserve}
use dockyard.Portfolio.Store.Valid.{SameIdentity}

abbrev pub phase_rank : QueuePhase → ℕ
phase_rank QueuePhase.queued = 0
phase_rank QueuePhase.selected = 1
phase_rank QueuePhase.dispatched = 2
phase_rank QueuePhase.retired = 3

-- The entry is the same, in a later generation or no earlier phase.
pub record Progress (e f : QueueEntry) : Type 0 where
  pub identity : SameIdentity e f
  pub forward :
      (e.selection_generation < f.selection_generation)
      ⊎ ((e.selection_generation ≡ f.selection_generation)
          × (phase_rank e.state ≤ phase_rank f.state))

-- A receipt stays as it is, or is dispatched once.
pub data ReceiptMove (r q : ScheduleReceipt) : Type 0 where
  kept : q ≡ r → ReceiptMove r q
  sent :
      r.phase ≡ ReceiptPhase.selected
      → q.phase ≡ ReceiptPhase.dispatched
      → q.queue_id ≡ r.queue_id
      → q.selection_generation ≡ r.selection_generation
      → ReceiptMove r q

abbrev pub last_issued : Option (ℕ × List ℕ) → ℕ
last_issued none = 0
last_issued (some (n, ns)) = n

pub record Grows (s t : SchedulerStore) : Type 0 where
  pub entries : (e : QueueEntry) → In e s.queue → (f : QueueEntry) × In f t.queue × Progress e f
  pub counter : last_issued s.sequence ≤ last_issued t.sequence
  pub receipts :
      (id : String) (r : ScheduleReceipt)
      → s.receipts id ≡ some r
      → (q : ScheduleReceipt) × (t.receipts id ≡ some q) × ReceiptMove r q
  pub tombstones :
      (id : String) (x : Tombstone) → s.tombstones id ≡ some x → t.tombstones id ≡ some x
  pub reservations :
      (q : String) (g : ℕ) (r : ScheduleReceipt)
      → s.reservations q g ≡ some r
      → t.reservations q g ≡ some r

pub SameIdentity-refl : (e : QueueEntry) → SameIdentity e e
SameIdentity-refl e = record {
  same_queue_id = refl;
  same_task_id = refl;
  same_revision = refl;
  same_sequence = refl;
}

pub Progress-refl : (e : QueueEntry) → Progress e e
Progress-refl e = record { identity = SameIdentity-refl e; forward = inr (refl, omega arith) }

Progress-trans : (e f g : QueueEntry) → Progress e f → Progress f g → Progress e g
Progress-trans e f g p q = record {
  identity = record {
    same_queue_id = p.identity.same_queue_id ∙ q.identity.same_queue_id;
    same_task_id = p.identity.same_task_id ∙ q.identity.same_task_id;
    same_revision = p.identity.same_revision ∙ q.identity.same_revision;
    same_sequence = p.identity.same_sequence ∙ q.identity.same_sequence;
  };
  forward = later e f g p.forward q.forward;
}
  where
    later :
        (e f g : QueueEntry)
        → (e.selection_generation < f.selection_generation)
          ⊎ ((e.selection_generation ≡ f.selection_generation)
              × (phase_rank e.state ≤ phase_rank f.state))
        → (f.selection_generation < g.selection_generation)
          ⊎ ((f.selection_generation ≡ g.selection_generation)
              × (phase_rank f.state ≤ phase_rank g.state))
        → (e.selection_generation < g.selection_generation)
          ⊎ ((e.selection_generation ≡ g.selection_generation)
              × (phase_rank e.state ≤ phase_rank g.state))
    later e f g (inl a) (inl b) = inl (omega arith)
    later e f g (inl a) (inr b) = inl (omega arith)
    later e f g (inr a) (inl b) = inl (omega arith)
    later e f g (inr a) (inr b) = inr (omega arith)

ReceiptMove-trans : (a b c : ScheduleReceipt) → ReceiptMove a b → ReceiptMove b c → ReceiptMove a c
ReceiptMove-trans a b c (kept e) (kept f) = kept (f ∙ e)
ReceiptMove-trans a b c (kept e) (sent p q r g) =
    sent (ap (λ x. x.phase) (sym e) ∙ p) q (r ∙ ap (λ x. x.queue_id) e)
      (g ∙ ap (λ x. x.selection_generation) e)
ReceiptMove-trans a b c (sent p q r g) (kept f) =
    sent p (ap (λ x. x.phase) f ∙ q) (ap (λ x. x.queue_id) f ∙ r)
      (ap (λ x. x.selection_generation) f ∙ g)
ReceiptMove-trans a b c (sent p q r g) (sent p' q' r' g') = sent p q' (r' ∙ r) (g' ∙ g)

pub Grows-refl : (s : SchedulerStore) → Grows s s
Grows-refl s = record {
  entries = λ e i. (e, i, Progress-refl e);
  counter = omega arith;
  receipts = λ id r h. (r, h, kept refl);
  tombstones = λ id x h. h;
  reservations = λ q g r h. h;
}

pub Grows-trans : (s t u : SchedulerStore) → Grows s t → Grows t u → Grows s u
Grows-trans s t u a b = record {
  entries = λ e i.
      let (f, j, p) = a.entries e i in
      let (g, k, q) = b.entries f j in (g, k, Progress-trans e f g p q);
  counter = let x = a.counter in let y = b.counter in omega arith;
  receipts = λ id r h.
      let (q, k, m) = a.receipts id r h in
      let (p, l, n) = b.receipts id q k in (p, l, ReceiptMove-trans r q p m n);
  tombstones = λ id x h. b.tombstones id x (a.tombstones id x h);
  reservations = λ q g r h. b.reservations q g r (a.reservations q g r h);
}

pub queue-Grows :
    (s : SchedulerStore) (es : List QueueEntry)
    → ((e : QueueEntry) → In e s.queue → (f : QueueEntry) × In f es × Progress e f)
    → Grows s (record s { queue = es })
queue-Grows s es h = record {
  entries = h;
  counter = omega arith;
  receipts = λ id r h. (r, h, kept refl);
  tombstones = λ id x h. h;
  reservations = λ q g r h. h;
}

update-Progress :
    (hash : List Line → String) (current u : QueueEntry) (es : List QueueEntry)
    → ((e : QueueEntry) → In e es → e.queue_id ≡ current.queue_id → e ≡ current)
    → Progress current u
    → (e : QueueEntry) → In e es
    → (f : QueueEntry) × In f (update_entries hash current.queue_id u es) × Progress e f
unfolding update_entries
update-Progress hash current u [] d p e i = absurd i
update-Progress hash current u (x ∷ xs) d p e (inl same) =
    elim (Bool-cases (x.queue_id == current.queue_id)) [
      | inl t ↦
          let known : x ≡ current = d x (inl refl) (eq_of_== x.queue_id current.queue_id t) in
          (u, rw t (inl refl), subst (λ y. Progress y u) (sym known ∙ same) p)
      | inr f ↦ (e, rw f (inl same), Progress-refl e)
    ]
update-Progress hash current u (x ∷ xs) d p e (inr i) =
    let (f, j, q) = update-Progress hash current u xs (λ y k. d y (inr k)) p e i in (f, inr j, q)

pub update-Grows :
    (hash : List Line → String) (s : SchedulerStore) (current u : QueueEntry)
    → Distinct s.queue
    → In current s.queue
    → Progress current u
    → Grows s (record s { queue = update_entries hash current.queue_id u s.queue })
update-Grows hash s current u d i p =
    queue-Grows s (update_entries hash current.queue_id u s.queue) (
      update-Progress hash current u s.queue
        (λ e j k.
          All-In (λ f. f.queue_id ≡ current.queue_id → f ≡ current) e s.queue
            (Distinct-id current s.queue d i) j k)
        p)

In-append : {A : Type 0} (a : A) (xs ys : List A) → In a xs → In a (xs ++ ys)
In-append a [] ys i = absurd i
In-append a (x ∷ xs) ys (inl e) = inl e
In-append a (x ∷ xs) ys (inr i) = inr (In-append a xs ys i)

pub insert-Grows :
    (s : SchedulerStore) (e : QueueEntry) → Grows s (record s { queue = insert_entry e s.queue })
unfolding insert_entry
insert-Grows s e = queue-Grows s (insert_entry e s.queue) (λ f i. (
  f,
  Sort.In-sort_by sequence-IsOrder f (s.queue ++ (e ∷ [])) (In-append f s.queue (e ∷ []) i),
  Progress-refl f,
))
  where
    sequence-IsOrder :
        Sort.IsOrder (λ (x y : QueueEntry). leb x.enqueue_sequence y.enqueue_sequence)
    sequence-IsOrder = record { total = λ a b. ground (arith); trans = λ a b c h k. ground (arith) }

pub sequence-Grows :
    (s : SchedulerStore) (n : ℕ) (ns : List ℕ)
    → last_issued s.sequence ≤ n
    → Grows s (record s { sequence = some (n, ns) })
sequence-Grows s n ns h = record {
  entries = λ e i. (e, i, Progress-refl e);
  counter = h;
  receipts = λ id r h. (r, h, kept refl);
  tombstones = λ id x h. h;
  reservations = λ q g r h. h;
}

put-kept :
    (id j : String) (r q : ScheduleReceipt) (m : String → Option ScheduleReceipt)
    → ((p : ScheduleReceipt) → m id ≡ some p → ReceiptMove p q)
    → m j ≡ some r
    → (p : ScheduleReceipt) × (put id q m j ≡ some p) × ReceiptMove r p
put-kept id j r q m k h = elim (Bool-cases (j == id)) [
  | inl t ↦ (q, rw t refl, k r (ap m (sym (eq_of_== j id t)) ∙ h))
  | inr f ↦ (r, rw f h, kept refl)
]

pub write_receipt-Grows :
    (s : SchedulerStore) (id : String) (q : ScheduleReceipt)
    → ((p : ScheduleReceipt) → s.receipts id ≡ some p → ReceiptMove p q)
    → Grows s (write_receipt s id q)
unfolding write_receipt
write_receipt-Grows s id q k = record {
  entries = λ e i. (e, i, Progress-refl e);
  counter = omega arith;
  receipts = λ j r h. put-kept id j r q s.receipts k h;
  tombstones = λ id x h. h;
  reservations = λ q g r h. h;
}

pub write_tombstone-Grows :
    (s : SchedulerStore) (id : String) (t : Tombstone)
    → s.tombstones id ≡ none
    → Grows s (write_tombstone s id t)
unfolding write_tombstone
write_tombstone-Grows s id t n = record {
  entries = λ e i. (e, i, Progress-refl e);
  counter = omega arith;
  receipts = λ id r h. (r, h, kept refl);
  tombstones = λ j x h. ground (arith);
  reservations = λ q g r h. h;
}

reserve-keeps :
    (s : SchedulerStore) (r : ScheduleReceipt) (q : String) (g : ℕ) (p : ScheduleReceipt)
    → s.reservations q g ≡ some p
    → s.reservations r.queue_id r.selection_generation ≡ none
    → put_generation r.queue_id r.selection_generation r s.reservations q g ≡ some p
reserve-keeps s r q g p h n = ground (arith)

pub reserve-Grows : (s : SchedulerStore) (r : ScheduleReceipt) → Grows s (reserve s r)
unfolding reserve
reserve-Grows s r =
    elim (s.reservations r.queue_id r.selection_generation)
        as (λ o.
          s.reservations r.queue_id r.selection_generation ≡ o
          → Grows s (elim o [
            | none ↦ record s {
              reservations = put_generation r.queue_id r.selection_generation r s.reservations;
            }
            | some q ↦ s
          ])) [
            | none ↦ λ n. record {
              entries = λ e i. (e, i, Progress-refl e);
              counter = omega arith;
              receipts = λ id r h. (r, h, kept refl);
              tombstones = λ id x h. h;
              reservations = λ q g p h. reserve-keeps s r q g p h n;
            }
            | some q ↦ λ n. Grows-refl s
          ]
      refl
