-- ===== src/SlotLease/Preserves.antt =====
-- The operations keep the lease document well formed.
use dockyard.Base.{
  ℕ, zero, suc, ◌+◌, ◌≡◌, ◌==◌, comparable_string, comparable_number, String, Bool, true, false,
  List, [], ◌∷◌, some, any, keep, arith, All, All-keep, All-map, returns, Bool-cases, ◌&&◌, not,
  subst, sym, ◌∙◌, inl, inr,
}
use dockyard.CoreTypes.{WorkerKind, comparable_kind}
use dockyard.SlotLease.Store.{
  Slot, comparable_slot, slot_kind, stable_slot_ids, WorkerSlotLease, Leases, find, has, delete,
  assign,
}
use dockyard.SlotLease.WellFormed.{Apart, AllApart}
use dockyard.SlotLease.Lifecycle.{
  candidate_slots, first_of_list, first_unused, generate_unique_lease_id,
}

-- Lists of entries.

pub AllApart-keep :
    (p : Slot × WorkerSlotLease → Bool) (ls : Leases) → AllApart ls → AllApart (keep p ls)
AllApart-keep p [] h = tt
AllApart-keep p (e ∷ ls) h =
    ground (arith, AllApart-keep p ls h.1, All-keep (λ f. Apart e.1 f.1) p ls h.0)

pub All-delete :
    (P : Slot × WorkerSlotLease → Type 0) (s : Slot) (ls : Leases) → All P ls → All P (delete s ls)
unfolding delete
All-delete P s [] h = tt
All-delete P s ((t, l) ∷ ls) h = ground (arith, All-delete P s ls h.1)

pub AllApart-delete : (s : Slot) (ls : Leases) → AllApart ls → AllApart (delete s ls)
unfolding delete
AllApart-delete s [] h = tt
AllApart-delete s ((t, l) ∷ ls) h =
    ground (arith, AllApart-delete s ls h.1, All-delete (λ f. Apart l f.1) s ls h.0)

pub All-assign :
    (P : Slot × WorkerSlotLease → Type 0) (s : Slot) (m : WorkerSlotLease) (ls : Leases)
    → All P ls
    → P (s, m)
    → All P (assign s m ls)
unfolding assign
All-assign P s m [] h p = (p, tt)
All-assign P s m ((t, l) ∷ ls) h p = ground (arith, All-assign P s m ls h.1 p)

-- A new entry goes behind the others.
pub AllApart-assign_new :
    (s : Slot) (m : WorkerSlotLease) (ls : Leases)
    → has s ls ≡ false
    → All (λ e. Apart e.1 m) ls
    → AllApart ls
    → AllApart (assign s m ls)
unfolding assign has
AllApart-assign_new s m [] h a p = (tt, tt)
AllApart-assign_new s m ((t, l) ∷ ls) h a p =
    ground (arith, AllApart-assign_new s m ls, All-assign (λ f. Apart l f.1) s m ls p.0 a.0)

pub find-All :
    (P : WorkerSlotLease → Type 0) (s : Slot) (x : WorkerSlotLease) (ls : Leases)
    → find s ls ≡ some x
    → All (λ e. P e.1) ls
    → P x
unfolding find
find-All P s x [] h a = cc
find-All P s x ((t, l) ∷ ls) h a = elim (Bool-cases (t == s)) [
  | inl hit ↦ subst P (same hit) a.0
  | inr miss ↦ find-All P s x ls (rw (sym (skip miss)) h) a.1
]
  where
    same : (t == s) ≡ true → l ≡ x
    same hit = ground arith

    skip : (t == s) ≡ false → find s ((t, l) ∷ ls) ≡ find s ls
    skip miss = ground arith

-- The fields by which entries are told apart.
pub record SameKey (m l : WorkerSlotLease) : Type 0 where
  pub same_id : m.lease_id ≡ l.lease_id
  pub same_kind : m.worker_kind ≡ l.worker_kind
  pub same_worktree : m.canonical_worktree ≡ l.canonical_worktree

Apart-left : (m l f : WorkerSlotLease) → SameKey m l → Apart l f → Apart m f
Apart-left m l f k a =
    (λ e. a.0 (sym k.same_id ∙ e), λ e w. a.1 (sym k.same_kind ∙ e) (sym k.same_worktree ∙ w))

Apart-right : (m l f : WorkerSlotLease) → SameKey m l → Apart f l → Apart f m
Apart-right m l f k a =
    (λ e. k.same_id ∙ a.0 (e ∙ k.same_id), λ e w. a.1 (e ∙ k.same_kind) (w ∙ k.same_worktree))

-- An entry with the id and the pair of the one that it replaces.
pub AllApart-assign_same :
    (s : Slot) (m old : WorkerSlotLease) (ls : Leases)
    → find s ls ≡ some old
    → SameKey m old
    → AllApart ls
    → AllApart (assign s m ls)
unfolding assign find
AllApart-assign_same s m old [] h k a = cc
AllApart-assign_same s m old ((t, l) ∷ ls) h k a = elim (Bool-cases (t == s)) [
  | inl hit ↦
      let same : l ≡ old = ground arith in
      let as_l : SameKey m l = subst (SameKey m) (sym same) k in
      rw hit
        (All-map (λ f. Apart l f.1) (λ f. Apart m f.1) (λ f. Apart-left m l f.1 as_l) ls a.0, a.1)
  | inr miss ↦
      let h' : find s ls ≡ some old = ground arith in
      rw miss (
        All-assign (λ f. Apart l f.1) s m ls a.0
            (Apart-right m old l k (find-All (Apart l) s old ls h' a.0)),
        AllApart-assign_same s m old ls h' k a.1,
      )
]

-- What the choices of `acquire_worker_slot` give.

first_unused_fresh :
    (n : ℕ) (draws : ℕ → String) (i : ℕ) (existing : List String) (id : String)
    → first_unused n draws i existing ≡ some id
    → any (λ j. j == id) existing ≡ false
unfolding first_unused
first_unused_fresh zero draws i existing id h = cc
first_unused_fresh (suc n) draws i existing id h =
    elim (Bool-cases (any (λ j. j == draws i) existing)) [
      | inl old ↦ first_unused_fresh n draws (i + 1) existing id (rw old at h)
      | inr new ↦
          let e : draws i ≡ id = ground (arith, rw new at h) in
          subst (λ x. any (λ j. j == x) existing ≡ false) e new
    ]

first_keep :
    (p : Slot → Bool) (ss : List Slot) (s : Slot) → first_of_list (keep p ss) ≡ some s → p s ≡ true
first_keep p [] s h = cc
first_keep p (x ∷ ss) s h = elim (Bool-cases (p x)) [
  | inl yes' ↦ let e : x ≡ s = ground (arith, rw yes' at h) in subst (λ y. p y ≡ true) e yes'
  | inr no' ↦ first_keep p ss s (rw no' at h)
]

pub candidate_lem :
    (k : WorkerKind) (ls : Leases) (s : Slot)
    → first_of_list (candidate_slots k ls) ≡ some s
    → (slot_kind s ≡ k) × (has s ls ≡ false)
unfolding candidate_slots
candidate_lem k ls s h =
    let e = first_keep (λ s. slot_kind s == k && not (has s ls)) stable_slot_ids s h in
    (ground (arith, e), ground (arith, e))

pub unused_lem :
    (draws : ℕ → String) (existing : List String) (id : String)
    → generate_unique_lease_id draws existing ≡ returns id
    → any (λ j. j == id) existing ≡ false
unfolding generate_unique_lease_id
unused_lem draws existing id h = first_unused_fresh 16 draws 0 existing id (ground arith)
