-- ===== src/SlotLease/WellFormed.antt =====
-- What a valid lease document promises, independently of the validator's loop: the slot of an entry
-- fixes its kind and epoch, its times are ordered, and two entries share neither an id nor a
-- (kind, worktree) pair.
use dockyard.Base.{
  ℕ, ◌≡◌, refl, ◌≢◌, ◌↔◌, ◌≤◌, ◌<◌, comparable_string, comparable_number, String, false, List, [],
  ◌∷◌, ◌++◌, arith, All,
}
use dockyard.CoreTypes.{WorkerKind, comparable_kind}
use dockyard.SlotLease.Store.{Slot, comparable_slot, slot_kind, WorkerSlotLease, Leases, LeaseStore}
use dockyard.SlotLease.Validate.{
  seen_id, note_id, seen_pair, check_lease, check_leases, validate_worker_slot_store,
}

abbrev pub Fits : (Slot → ℕ) → Slot × WorkerSlotLease → Type 0
Fits epochs (s, l) =
    (l.slot_id ≡ s)
    × (l.worker_kind ≡ slot_kind s)
    × (l.lease_epoch ≡ epochs s)
    × (l.acquired_at ≤ l.heartbeat_at)
    × (l.heartbeat_at < l.expires_at)

-- `l` may stand behind `m`.
abbrev pub Apart : WorkerSlotLease → WorkerSlotLease → Type 0
Apart m l =
    (m.lease_id ≡ l.lease_id → l.lease_id ≡ "")
    × (m.worker_kind ≡ l.worker_kind → m.canonical_worktree ≢ l.canonical_worktree)

abbrev pub AllApart : Leases → Type 0
AllApart [] = Unit
AllApart (e ∷ ls) = All (λ f. Apart e.1 f.1) ls × AllApart ls

pub record IsWellFormed (d : LeaseStore) : Type 0 where
  pub fits : All (Fits d.slot_epochs) d.leases
  pub apart : AllApart d.leases

-- An entry that meets none of those seen before it.
abbrev Unseen : List String → List (WorkerKind × String) → Slot × WorkerSlotLease → Type 0
Unseen ids pairs (s, l) =
    (seen_id l.lease_id ids ≡ false) × (seen_pair l.worker_kind l.canonical_worktree pairs ≡ false)

check_lease_nil :
    (epochs : Slot → ℕ) (ids : List String) (pairs : List (WorkerKind × String)) (s : Slot)
    (l : WorkerSlotLease)
    → (check_lease epochs ids pairs s l ≡ []) ↔ Fits epochs (s, l) × Unseen ids pairs (s, l)
unfolding check_lease
check_lease_nil epochs ids pairs s l = ground arith

Unseen-cons :
    (ids : List String) (pairs : List (WorkerKind × String)) (m : WorkerSlotLease)
    (f : Slot × WorkerSlotLease)
    → Unseen (note_id m.lease_id ids) ((m.worker_kind, m.canonical_worktree) ∷ pairs) f
      ↔ Unseen ids pairs f × Apart m f.1
unfolding note_id seen_id seen_pair
Unseen-cons ids pairs m f = ground arith

abbrev All2 :
    (Slot × WorkerSlotLease → Type 0) → (Slot × WorkerSlotLease → Type 0) → Leases → Type 0
All2 P Q ls = All P ls × All Q ls

Unseen-All :
    (ids : List String) (pairs : List (WorkerKind × String)) (m : WorkerSlotLease) (ls : Leases)
    → All (Unseen (note_id m.lease_id ids) ((m.worker_kind, m.canonical_worktree) ∷ pairs)) ls
      ↔ All2 (Unseen ids pairs) (λ f. Apart m f.1) ls
Unseen-All ids pairs m [] = (λ h. (tt, tt), λ h. tt)
Unseen-All ids pairs m (f ∷ ls) =
    let a = Unseen-cons ids pairs m f in
    let b = Unseen-All ids pairs m ls in
    (
      λ h. ((((a.0 h.0).0), (b.0 h.1).0), ((a.0 h.0).1, (b.0 h.1).1)),
      λ h. (a.1 (h.0.0, h.1.0), b.1 (h.0.1, h.1.1)),
    )

append-eq-nil {ℓ} : {A : Type ℓ} (xs ys : List A) → (xs ++ ys ≡ []) ↔ (xs ≡ []) × (ys ≡ [])
append-eq-nil [] ys = (λ h. (refl, h), λ h. h.1)
append-eq-nil (x ∷ xs) ys = (λ h. cc, λ h. cc)

check_leases_nil :
    (epochs : Slot → ℕ) (ids : List String) (pairs : List (WorkerKind × String)) (ls : Leases)
    → (check_leases epochs ids pairs ls ≡ [])
      ↔ All (Fits epochs) ls × AllApart ls × All (Unseen ids pairs) ls
unfolding check_leases
check_leases_nil epochs ids pairs [] = (λ h. (tt, tt, tt), λ h. refl)
check_leases_nil epochs ids pairs ((s, l) ∷ ls) =
    let a = append-eq-nil (check_lease epochs ids pairs s l) (
      check_leases epochs (note_id l.lease_id ids) ((l.worker_kind, l.canonical_worktree) ∷ pairs)
        ls) in
    let b = check_lease_nil epochs ids pairs s l in
    let c =
      check_leases_nil epochs (note_id l.lease_id ids)
        ((l.worker_kind, l.canonical_worktree) ∷ pairs) ls in
    let d = Unseen-All ids pairs l ls in
    (
      λ h.
          let e = a.0 h in
          let f = b.0 e.0 in
          let g = c.0 e.1 in let k = d.0 g.2 in ((f.0, g.0), (k.1, g.1), (f.1, k.0)),
      λ h. a.1 (b.1 (h.0.0, h.2.0), c.1 (h.0.1, h.1.1, d.1 (h.2.1, h.1.0))),
    )

All-Unseen : (ls : Leases) → All (Unseen [] []) ls
unfolding seen_id seen_pair
All-Unseen [] = tt
All-Unseen (e ∷ ls) = (ground arith, All-Unseen ls)

-- The validator's loop reports nothing exactly when every entry fits its slot, kind, epoch and
-- time order, and no two entries share a non-empty id or a kind and worktree.
pub validate-nil-iff_IsWellFormed :
    (d : LeaseStore) → (validate_worker_slot_store d ≡ []) ↔ IsWellFormed d
unfolding validate_worker_slot_store
validate-nil-iff_IsWellFormed d =
    let c = check_leases_nil d.slot_epochs [] [] d.leases in
    (
      λ h. let e = c.0 h in record { fits = e.0; apart = e.1 },
      λ w. c.1 (w.fits, w.apart, All-Unseen d.leases),
    )
