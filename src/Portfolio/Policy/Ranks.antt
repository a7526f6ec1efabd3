-- ===== src/Portfolio/Policy/Ranks.antt =====
-- The ranks of `_compute_aging_ranks` on entries with distinct queue ids.
use dockyard.Base.{
  ℕ, suc, ◌≤◌, ◌<◌, ◌≡◌, refl, sym, ap, subst, ◌∙◌, ◌≢◌, ◌==◌, comparable_string, comparable_number,
  String, Bool, true, List, [], ◌∷◌, ◌++◌, none, some, keep, arith, All, All-map, inl, inr,
  Bool-cases, eq_of_==, ==-refl,
}
use dockyard.Base.Members.{In, In-keep, In-of_keep, keep-All, All-In, All-of_keep}
use dockyard.Base.Sort.{sort_by, sort_by-Least, Least, All-sort_by, In-sort_by}
use dockyard.Portfolio.Entry.{QueueEntry, BusinessPriority, p0, p1, p2, p3, comparable_priority}
use dockyard.Portfolio.Policy.{rank_of, enumerate_ids, band_ranks, compute_aging_ranks}
use dockyard.Portfolio.Policy.Keys.{aging_leb, aging_leb-IsOrder}

abbrev pub Distinct : List QueueEntry → Type 0
Distinct [] = Unit
Distinct (e ∷ es) = All (λ f. e.queue_id ≢ f.queue_id) es × Distinct es

-- Among distinct entries an id names its entry.
pub Distinct-id :
    (e : QueueEntry) (es : List QueueEntry)
    → Distinct es
    → In e es
    → All (λ f. f.queue_id ≡ e.queue_id → f ≡ e) es
Distinct-id e [] d i = absurd i
Distinct-id e (x ∷ es) d (inl h) = (
  λ k. h,
  All-map (λ f. x.queue_id ≢ f.queue_id) (λ f. f.queue_id ≡ e.queue_id → f ≡ e)
      (λ f n k. absurd (n (ap (λ y. y.queue_id) h ∙ sym k))) es d.0,
)
Distinct-id e (x ∷ es) d (inr i) =
    (λ k. absurd (All-In (λ f. x.queue_id ≢ f.queue_id) e es d.0 i k), Distinct-id e es d.1 i)

pub Distinct-keep :
    (p : QueueEntry → Bool) (es : List QueueEntry) → Distinct es → Distinct (keep p es)
Distinct-keep p [] d = tt
Distinct-keep p (e ∷ es) d = elim (Bool-cases (p e)) [
  | inl t ↦ rw t (
    keep-All (λ f. e.queue_id ≢ f.queue_id) p es
        (All-map (λ f. e.queue_id ≢ f.queue_id) (λ f. p f ≡ true → e.queue_id ≢ f.queue_id)
          (λ f n k. n) es d.0),
    Distinct-keep p es d.1,
  )
  | inr f ↦ rw f (Distinct-keep p es d.1)
]

rank_of-append :
    (q : String) (rs ss : List (String × ℕ))
    → rank_of q rs ≡ none
    → rank_of q (rs ++ ss) ≡ rank_of q ss
unfolding rank_of
rank_of-append q [] ss h = refl
rank_of-append q ((p, n) ∷ rs) ss h = ground (arith, rank_of-append q rs ss)

rank_of-append_some :
    (q : String) (n : ℕ) (rs ss : List (String × ℕ))
    → rank_of q rs ≡ some n
    → rank_of q (rs ++ ss) ≡ some n
unfolding rank_of
rank_of-append_some q n [] ss h = cc
rank_of-append_some q n ((p, m) ∷ rs) ss h = ground (arith, rank_of-append_some q n rs ss)

enumerate_none :
    (q : String) (n : ℕ) (es : List QueueEntry)
    → All (λ f. f.queue_id ≢ q) es
    → rank_of q (enumerate_ids n es) ≡ none
unfolding rank_of enumerate_ids
enumerate_none q n [] h = refl
enumerate_none q n (e ∷ es) h = ground (arith, enumerate_none q (suc n) es h.1)

-- An enumerated entry has a rank, from the first number on.
enumerate_some :
    (e : QueueEntry) (n : ℕ) (es : List QueueEntry)
    → In e es
    → (k : ℕ) × (rank_of e.queue_id (enumerate_ids n es) ≡ some k) × (n ≤ k)
unfolding rank_of enumerate_ids
enumerate_some e n [] i = absurd i
enumerate_some e n (x ∷ es) (inl h) = (n, ground arith, omega arith)
enumerate_some e n (x ∷ es) (inr i) =
    let (k, r, b) = enumerate_some e (suc n) es i in
    elim (Bool-cases (x.queue_id == e.queue_id)) [
      | inl same ↦ (n, rw same refl, omega arith)
      | inr other ↦ (k, rw other r, omega arith)
    ]

enumerate_later :
    (q : String) (n : ℕ) (es : List QueueEntry) → 0 < n → rank_of q (enumerate_ids n es) ≢ some 0
unfolding rank_of enumerate_ids
enumerate_later q n [] p h = cc
enumerate_later q n (e ∷ es) p h = ground (arith, enumerate_later q (suc n) es)

first_rank :
    (h : QueueEntry) (es : List QueueEntry) → rank_of h.queue_id (enumerate_ids 0 (h ∷ es)) ≡ some 0
unfolding rank_of enumerate_ids
first_rank h es = rw (==-refl h.queue_id) refl

-- Rank 0 belongs to the first.
pub enumerate_first :
    (q : String) (h : QueueEntry) (es : List QueueEntry)
    → rank_of q (enumerate_ids 0 (h ∷ es)) ≡ some 0
    → h.queue_id ≡ q
unfolding rank_of enumerate_ids
enumerate_first q h es r = elim (Bool-cases (h.queue_id == q)) [
  | inl same ↦ eq_of_== h.queue_id q same
  | inr other ↦ absurd (enumerate_later q 1 es (omega arith) (rw other at r))
]

module _ (es : List QueueEntry) (d : Distinct es) where
  abbrev pub band : BusinessPriority → List QueueEntry
  band p = keep (λ e. e.business_priority == p) es

  -- No other band has the entry.
  other_band :
      (e : QueueEntry) (p : BusinessPriority)
      → In e es
      → e.business_priority ≢ p
      → rank_of e.queue_id (band_ranks p es) ≡ none
  unfolding band_ranks
  other_band e p i n = enumerate_none e.queue_id 0 (sort_by aging_leb (band p)) (
      All-sort_by aging_leb-IsOrder (λ f. f.queue_id ≢ e.queue_id) (band p)
        (keep-All (λ f. f.queue_id ≢ e.queue_id) (λ f. f.business_priority == p) es
          (All-map (λ f. f.queue_id ≡ e.queue_id → f ≡ e)
            (λ f. (f.business_priority == p) ≡ true → f.queue_id ≢ e.queue_id)
            (λ f same t k. n (subst (λ x. x.business_priority ≡ p) (same k) (eq_of_== _ p t))) es
            (Distinct-id e es d i))))

  own_band :
      (e : QueueEntry)
      → In e es
      → (k : ℕ) × (rank_of e.queue_id (band_ranks e.business_priority es) ≡ some k) × (0 ≤ k)
  unfolding band_ranks
  own_band e i = enumerate_some e 0 (sort_by aging_leb (band e.business_priority)) (
      In-sort_by aging_leb-IsOrder e (band e.business_priority) (
        In-keep (λ f. f.business_priority == e.business_priority) e es i
          (==-refl e.business_priority)))

  -- The rank of an entry is its rank in its own band.
  pub rank_of-own :
      (e : QueueEntry) (p : BusinessPriority) (k : ℕ)
      → In e es
      → e.business_priority ≡ p
      → rank_of e.queue_id (band_ranks p es) ≡ some k
      → rank_of e.queue_id (compute_aging_ranks es) ≡ some k
  unfolding compute_aging_ranks
  rank_of-own e p0 k i h r = rank_of-append_some e.queue_id k (band_ranks p0 es) _ r
  rank_of-own e p1 k i h r =
      rw
        (rank_of-append e.queue_id (band_ranks p0 es)
          (band_ranks p1 es ++ (band_ranks p2 es ++ band_ranks p3 es))
          (other_band e p0 i (λ q. cc)))
        (rank_of-append_some e.queue_id k (band_ranks p1 es) _ r)
  rank_of-own e p2 k i h r =
      rw
        (
          rank_of-append e.queue_id (band_ranks p0 es)
              (band_ranks p1 es ++ (band_ranks p2 es ++ band_ranks p3 es))
              (other_band e p0 i (λ q. cc)),
          rank_of-append e.queue_id (band_ranks p1 es) (band_ranks p2 es ++ band_ranks p3 es)
              (other_band e p1 i (λ q. cc)),
        )
        (rank_of-append_some e.queue_id k (band_ranks p2 es) _ r)
  rank_of-own e p3 k i h r =
      rw
        (
          rank_of-append e.queue_id (band_ranks p0 es)
              (band_ranks p1 es ++ (band_ranks p2 es ++ band_ranks p3 es))
              (other_band e p0 i (λ q. cc)),
          rank_of-append e.queue_id (band_ranks p1 es) (band_ranks p2 es ++ band_ranks p3 es)
              (other_band e p1 i (λ q. cc)),
          rank_of-append e.queue_id (band_ranks p2 es) (band_ranks p3 es)
              (other_band e p2 i (λ q. cc)),
        )
        r

  pub rank_of-ranked :
      (e : QueueEntry)
      → In e es
      → (k : ℕ) × (rank_of e.queue_id (compute_aging_ranks es) ≡ some k)
        × (rank_of e.queue_id (band_ranks e.business_priority es) ≡ some k)
  rank_of-ranked e i =
      let (k, r, b) = own_band e i in (k, rank_of-own e e.business_priority k i refl r, r)

-- The first of a band that is not empty: it precedes the band, and it alone has rank 0 there.
pub record BandHead (es : List QueueEntry) (p : BusinessPriority) : Type 0 where
  pub first : QueueEntry
  pub listed : In first es
  pub same : first.business_priority ≡ p
  pub oldest : All (λ f. (f.business_priority == p) ≡ true → aging_leb first f ≡ true) es
  pub zero_rank : rank_of first.queue_id (band_ranks p es) ≡ some 0
  pub only : (q : String) → rank_of q (band_ranks p es) ≡ some 0 → first.queue_id ≡ q

head_lem :
    (es : List QueueEntry) (p : BusinessPriority) (xs sorted : List QueueEntry)
    → keep (λ e. e.business_priority == p) es ≡ xs
    → sort_by aging_leb xs ≡ sorted
    → Least aging_leb-IsOrder xs sorted
    → (e : QueueEntry) → In e xs
    → BandHead es p
unfolding band_ranks
head_lem es p xs [] h s l e i = absurd (rw l at i)
head_lem es p xs (f ∷ fs) h s l e i =
    let (listed, same) = In-of_keep (λ x. x.business_priority == p) f es (rw h l.0) in
    record {
      first = f;
      listed = listed;
      same = eq_of_== f.business_priority p same;
      oldest =
          All-of_keep (λ y. aging_leb f y ≡ true) (λ x. x.business_priority == p) es (rw h l.1);
      zero_rank = rw (h, s) (first_rank f fs);
      only = λ q r. enumerate_first q f fs (rw (h, s) at r);
    }

pub band-BandHead :
    (es : List QueueEntry) (e : QueueEntry) → In e es → BandHead es e.business_priority
band-BandHead es e i =
    let xs = keep (λ x. x.business_priority == e.business_priority) es in
    head_lem es e.business_priority xs (sort_by aging_leb xs) refl refl
      (sort_by-Least aging_leb-IsOrder xs) e
      (In-keep (λ x. x.business_priority == e.business_priority) e es i
        (==-refl e.business_priority))
