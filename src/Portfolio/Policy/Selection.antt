-- ===== src/Portfolio/Policy/Selection.antt =====
-- What `select_next` selects: the least eligible entry, by priority, then age, then sequence.
use dockyard.Portfolio.Policy.{PolicyError}
use dockyard.Base.{Attempt}
use dockyard.Base.{Bool, Bool-cases, inl, inr, true, require, ◌>>◌}
use dockyard.Base.{
  ℕ, zero, suc, ◌≤◌, ◌<◌, ◌≡◌, refl, ap, subst, ◌∙◌, ◌==◌, comparable_string, comparable_number,
  String, true, List, [], ◌∷◌, map, Option, none, some, any, take, arith, All, inl, inr, ◌⊎◌,
  ==-refl, returns,
}
use dockyard.Base.Members.{In, In-All, All-In, In-map, All-of_map}
use dockyard.Base.Sort.{sort_by, sort_by-Least, Least}
use dockyard.Portfolio.Entry.{
  QueueEntry, BusinessPriority, comparable_priority, comparable_phase, OrderKey, ScheduleReceipt,
}
use dockyard.CoreTypes.{comparable_kind}
use dockyard.Portfolio.Policy.{
  AdmissionContext, rank_of, compute_aging_ranks, order_key, with_keys, head_of,
  selection_reason_parts, build_receipt, completed_receipt, selected_at_invalid, is_timestamp,
  choose, issue, join_colon,
}
use dockyard.Portfolio.Policy.Keys.{
  aging_leb, key_leb, key_leb-IsOrder, key_leb_parts, priority_rank,
}
use dockyard.Portfolio.Policy.Ranks.{
  Distinct, Distinct-id, rank_of-ranked, rank_of-own, band-BandHead,
}

-- `e` is selected before `f`: a more urgent priority, or the same one and no later by
-- (aging_basis_at, enqueue_sequence).
abbrev pub Precedes : QueueEntry → QueueEntry → Type 0
Precedes e f =
    (priority_rank e.business_priority < priority_rank f.business_priority)
    ⊎ ((e.business_priority ≡ f.business_priority) × (aging_leb e f ≡ true))

-- The rank of an entry, 0 if it has none.
abbrev rank : List (String × ℕ) → QueueEntry → ℕ
rank ranks e = elim (rank_of e.queue_id ranks) [ none ↦ 0 | some n ↦ n ]

rank_some : (o : Option ℕ) (k : ℕ) → o ≡ some k → o ≡ some (elim o [ none ↦ 0 | some n ↦ n ])
rank_some none k h = cc
rank_some (some n) k h = refl

abbrev keyed : List (String × ℕ) → QueueEntry → OrderKey × QueueEntry
keyed ranks e = (order_key e (rank ranks e), e)

with_keys_lem :
    (ranks : List (String × ℕ)) (es : List QueueEntry)
    → All (λ e. rank_of e.queue_id ranks ≡ some (rank ranks e)) es
    → with_keys ranks es ≡ returns (map (keyed ranks) es)
unfolding with_keys
with_keys_lem ranks [] h = refl
with_keys_lem ranks (e ∷ es) h = rw (h.0, with_keys_lem ranks es h.1) refl

priority_rank_injective : (p q : BusinessPriority) → priority_rank p ≡ priority_rank q → p ≡ q
unfolding priority_rank
priority_rank_injective p q h = ground arith

-- Against an entry of its band with rank 0, the least key has rank 0.
no_later :
    (ranks : List (String × ℕ)) (e f : QueueEntry) (k : ℕ)
    → rank_of e.queue_id ranks ≡ some k
    → rank_of f.queue_id ranks ≡ some 0
    → f.business_priority ≡ e.business_priority
    → key_leb (keyed ranks e) (keyed ranks f) ≡ true
    → k ≡ 0
unfolding order_key
no_later ranks e f k r s p h = ground (arith, key_leb_parts (keyed ranks e) (keyed ranks f) h)

first_part :
    (e f : QueueEntry) (ranks : List (String × ℕ))
    → key_leb (keyed ranks e) (keyed ranks f) ≡ true
    → ((f.business_priority == e.business_priority) ≡ true → aging_leb e f ≡ true)
    → Precedes e f
unfolding order_key
first_part e f ranks h o = elim (key_leb_parts (keyed ranks e) (keyed ranks f) h) [
  | inl less ↦ inl less
  | inr (same, _) ↦
      let p = priority_rank_injective e.business_priority f.business_priority same in
      inr (p, o (rw p (==-refl f.business_priority)))
]

precedes :
    (ranks : List (String × ℕ)) (e : QueueEntry) (es : List QueueEntry)
    → All (λ f. key_leb (keyed ranks e) (keyed ranks f) ≡ true) es
    → All (λ f. (f.business_priority == e.business_priority) ≡ true → aging_leb e f ≡ true) es
    → All (Precedes e) es
precedes ranks e [] h o = tt
precedes ranks e (f ∷ es) h o = (one, precedes ranks e es h.1 o.1)
  where
    one : Precedes e f
    one = first_part e f ranks h.0 o.0

module _ (es : List QueueEntry) (d : Distinct es) where
  abbrev own_ranks : List (String × ℕ)
  own_ranks = compute_aging_ranks es

  All-ranked : All (λ e. rank_of e.queue_id own_ranks ≡ some (rank own_ranks e)) es
  All-ranked = In-All _ es (λ e i.
      let (k, r, b) = rank_of-ranked es d e i in rank_some (rank_of e.queue_id own_ranks) k r)

  -- The entry whose key is least precedes all entries, and has rank 0.
  least-Precedes :
      (e : QueueEntry)
      → In e es
      → All (λ f. key_leb (keyed own_ranks e) (keyed own_ranks f) ≡ true) es
      → All (Precedes e) es × (rank_of e.queue_id own_ranks ≡ some 0)
  least-Precedes e i h =
      let b = band-BandHead es e i in
      let (k, r, own) = rank_of-ranked es d e i in
      let r0 = rank_of-own es d b.first e.business_priority 0 b.listed b.same b.zero_rank in
      let m =
        All-In (λ f. key_leb (keyed own_ranks e) (keyed own_ranks f) ≡ true) b.first es h
          b.listed in
      let z : k ≡ 0 = no_later own_ranks e b.first k r r0 b.same m in
      let same_id = b.only e.queue_id (own ∙ ap some z) in
      let same : b.first ≡ e =
        All-In (λ f. f.queue_id ≡ e.queue_id → f ≡ e) b.first es (Distinct-id e es d i) b.listed
          same_id in
      (
        precedes own_ranks e es h (
            subst
              (λ x.
                All
                  (λ f. (f.business_priority == e.business_priority) ≡ true → aging_leb x f ≡ true)
                  es)
              same b.oldest),
        r ∙ ap some z,
      )

head_take : {A : Type 0} (n : ℕ) (x : A) (xs : List A) → 1 ≤ n → head_of (take n (x ∷ xs)) ≡ some x
head_take zero x xs h = absurd (omega arith)
head_take (suc n) x xs h = refl

head_take_nil : (n : ℕ) → head_of (take n (sort_by key_leb [])) ≡ none
unfolding sort_by
head_take_nil zero = refl
head_take_nil (suc n) = refl

module _ (casefold : String → String) (digest : ScheduleReceipt → String)
    (parses : String → Bool) where
  -- The receipt of an entry that is the oldest of its band.
  abbrev pub receipt_of : AdmissionContext → List String → QueueEntry → ScheduleReceipt
  receipt_of c authorized e =
      completed_receipt casefold digest parses e (order_key e 0) c.evaluated_at
        (join_colon (selection_reason_parts e 0 (any (λ t. t == e.queue_id) authorized)))

  -- The receipt, or the error of its constructor.
  abbrev pub dated :
      AdmissionContext → ScheduleReceipt → Attempt PolicyError (Option ScheduleReceipt)
  dated c r = require (is_timestamp parses c.evaluated_at) selected_at_invalid >> returns (some r)

  -- Some entry precedes all entries, and the receipt is made of it.
  pub record Chosen (c : AdmissionContext) (authorized : List String) (es : List QueueEntry)
      : Type 0 where
    pub entry : QueueEntry
    pub listed : In entry es
    pub first : All (Precedes entry) es
    pub result :
        choose casefold digest parses c authorized es ≡ dated c (receipt_of c authorized entry)

  issue-none :
      (c : AdmissionContext) (authorized : List String) (ranks : List (String × ℕ))
      → issue casefold digest parses c authorized ranks none ≡ returns none
  unfolding issue
  issue-none c authorized ranks = refl

  choose-keyed :
      (c : AdmissionContext) (authorized : List String) (es : List QueueEntry)
      → Distinct es
      → choose casefold digest parses c authorized es
        ≡ issue casefold digest parses c authorized (compute_aging_ranks es) (
            head_of
              (take c.max_selections (sort_by key_leb (map (keyed (compute_aging_ranks es)) es))))
  unfolding choose
  choose-keyed c authorized es d =
      rw (with_keys_lem (compute_aging_ranks es) es (All-ranked es d)) refl

  issue_first :
      (c : AdmissionContext) (authorized : List String) (ranks : List (String × ℕ)) (e : QueueEntry)
      (k : OrderKey)
      → rank_of e.queue_id ranks ≡ some 0
      → issue casefold digest parses c authorized ranks (some (k, e))
        ≡ dated c (receipt_of c authorized e)
  unfolding issue build_receipt
  issue_first c authorized ranks e k r = elim (Bool-cases (is_timestamp parses c.evaluated_at)) [
    | inl t ↦ rw (r, t) refl
    | inr f ↦ rw (r, f) refl
  ]

  choose_head :
      (c : AdmissionContext) (authorized : List String) (es : List QueueEntry)
      (sorted : List (OrderKey × QueueEntry)) (e : QueueEntry)
      → Distinct es
      → 1 ≤ c.max_selections
      → sort_by key_leb (map (keyed (compute_aging_ranks es)) es) ≡ sorted
      → Least key_leb-IsOrder (map (keyed (compute_aging_ranks es)) es) sorted
      → In e es
      → Chosen c authorized es
  choose_head c authorized es [] e d m s l i = absurd (not_nil es l i)
    where
      not_nil : (xs : List QueueEntry) → map (keyed (compute_aging_ranks es)) xs ≡ [] → In e xs → ⊥
      not_nil [] h j = j
      not_nil (x ∷ xs) h j = cc
  choose_head c authorized es (k ∷ ks) e d m s l i =
      let (x, j, same) = In-map (keyed (compute_aging_ranks es)) k es l.0 in
      let all = All-of_map (λ y. key_leb k y ≡ true) (keyed (compute_aging_ranks es)) es l.1 in
      let all' =
        subst (λ y. All (λ f. key_leb y (keyed (compute_aging_ranks es) f) ≡ true) es) same all in
      let (before, zero_rank) = least-Precedes es d x j all' in
      let head : head_of (take c.max_selections (k ∷ ks))
          ≡ some (keyed (compute_aging_ranks es) x) =
        head_take c.max_selections k ks m ∙ ap some same in
      record {
        entry = x;
        listed = j;
        first = before;
        result =
            choose-keyed c authorized es d
            ∙ ap
                (λ y.
                  issue casefold digest parses c authorized (compute_aging_ranks es)
                    (head_of (take c.max_selections y)))
                s
            ∙ ap (issue casefold digest parses c authorized (compute_aging_ranks es)) head
            ∙ issue_first c authorized (compute_aging_ranks es) x _ zero_rank;
      }

  pub choose-Chosen :
      (c : AdmissionContext) (authorized : List String) (es : List QueueEntry) (e : QueueEntry)
      → Distinct es
      → 1 ≤ c.max_selections
      → In e es
      → Chosen c authorized es
  choose-Chosen c authorized es e d m i =
      choose_head c authorized es (sort_by key_leb (map (keyed (compute_aging_ranks es)) es)) e d m
        refl (sort_by-Least key_leb-IsOrder (map (keyed (compute_aging_ranks es)) es)) i

  pub choose-nil :
      (c : AdmissionContext) (authorized : List String)
      → choose casefold digest parses c authorized [] ≡ returns none
  choose-nil c authorized =
      choose-keyed c authorized [] tt
      ∙ ap (issue casefold digest parses c authorized (compute_aging_ranks []))
          (head_take_nil c.max_selections)
      ∙ issue-none c authorized (compute_aging_ranks [])
