-- ===== src/SlotLease/Fencing.antt =====
-- Epochs as fencing tokens: a lease that a later grant of its slot has superseded is refused for
-- good, whatever operations come between.
use dockyard.Base.{ℕ, ◌+◌, ◌≡◌, ◌≢◌, ◌≤◌, arith, returns, subst, sym, ◌∙◌, ap}
use dockyard.SlotLease.Store.{Slot, comparable_slot, WorkerSlotLease, LeaseStore, set_epoch}
use dockyard.SlotLease.WellFormed.{validate-nil-iff_IsWellFormed}
use dockyard.SlotLease.Lifecycle.{
  AcquireRequest, acquire_worker_slot, release_worker_slot, renew_worker_slot,
  hold_worker_slot_fence,
}
use dockyard.SlotLease.Outcomes.{Grant, acquire-Grant, Held, release-Held, renew-Held, fence-Held}
use dockyard.SlotLease.Validity.{find-Fits}

-- One successful operation of some worker.
pub data Step (d d' : LeaseStore) : Type 0 where
  acquires :
      (r : AcquireRequest) (l : WorkerSlotLease)
      → acquire_worker_slot d r ≡ returns (d', l)
      → Step d d'
  releases : (l : WorkerSlotLease) (now : ℕ) → release_worker_slot d l now ≡ returns d' → Step d d'
  renews :
      (l new : WorkerSlotLease) (now : ℕ)
      → renew_worker_slot d l now ≡ returns (d', new)
      → Step d d'

-- A history of operations under the lock.
pub data Reach (d : LeaseStore) : LeaseStore → Type 0 where
  here : Reach d d
  next : {e f : LeaseStore} → Reach d e → Step e f → Reach d f

Step-epochs : (d d' : LeaseStore) (s : Slot) → Step d d' → d.slot_epochs s ≤ d'.slot_epochs s
unfolding set_epoch
Step-epochs d d' s (acquires r l h) = let g = acquire-Grant d r d' l h in rw g.epochs (ground arith)
Step-epochs d d' s (releases l now h) =
    let (stored, held, later, e) = release-Held d l now d' h in rw e (omega arith)
Step-epochs d d' s (renews l new now h) =
    let (stored, held, started, unexpired, built, e, e') = renew-Held d l now d' new h in
    rw e' (omega arith)

Reach-epochs : {d d' : LeaseStore} (s : Slot) → Reach d d' → d.slot_epochs s ≤ d'.slot_epochs s
Reach-epochs s here = omega arith
Reach-epochs s (next {e} {f} r st) = omega (arith, Reach-epochs s r, Step-epochs e f s st)

-- A lease that an operation accepts carries the current epoch of its slot.
pub Held-epoch :
    (d : LeaseStore) (lease stored : WorkerSlotLease) (now : ℕ)
    → Held d lease stored now
    → lease.lease_epoch ≡ d.slot_epochs lease.slot_id
Held-epoch d lease stored now h =
    let w = (validate-nil-iff_IsWellFormed d).0 h.valid in
    let f = find-Fits d.slot_epochs lease.slot_id stored d.leases h.found w.fits in
    sym h.same_epoch ∙ f.2

pub Grant-epoch :
    (d : LeaseStore) (r : AcquireRequest) (d' : LeaseStore) (l : WorkerSlotLease)
    → Grant d r d' l
    → (l.lease_epoch ≡ d.slot_epochs l.slot_id + 1)
      × (d'.slot_epochs l.slot_id ≡ d.slot_epochs l.slot_id + 1)
unfolding set_epoch
Grant-epoch d r d' l g = (ap (λ m. m.lease_epoch) g.lease, rw g.epochs (ground arith))

-- No operation takes the lease `l` on the document `d`.
pub record Refused (d : LeaseStore) (l : WorkerSlotLease) : Type 0 where
  pub no_fence : (now : ℕ) → hold_worker_slot_fence d l now ≢ returns tt
  pub no_renew :
      (now : ℕ) (x : LeaseStore × WorkerSlotLease) → renew_worker_slot d l now ≢ returns x
  pub no_release : (now : ℕ) (x : LeaseStore) → release_worker_slot d l now ≢ returns x

Refused-of_epoch :
    (d : LeaseStore) (l : WorkerSlotLease) → l.lease_epoch ≢ d.slot_epochs l.slot_id → Refused d l
Refused-of_epoch d l n = record {
  no_fence = λ now h. let r = fence-Held d l now h in n (Held-epoch d l r.0 now r.1);
  no_renew = λ now x h. let r = renew-Held d l now x.0 x.1 h in n (Held-epoch d l r.0 now r.1);
  no_release = λ now x h. let r = release-Held d l now x h in n (Held-epoch d l r.0 now r.1);
}

-- Once its slot has been granted again, a lease is refused by the fence, by renewal and by
-- release after any further sequence of successful operations.
pub superseded-Refused :
    (d d₁ d₂ d₃ d₄ : LeaseStore) (r r' : AcquireRequest) (l l' : WorkerSlotLease)
    → acquire_worker_slot d r ≡ returns (d₁, l)
    → Reach d₁ d₂
    → acquire_worker_slot d₂ r' ≡ returns (d₃, l')
    → l'.slot_id ≡ l.slot_id
    → Reach d₃ d₄
    → Refused d₄ l
superseded-Refused d d₁ d₂ d₃ d₄ r r' l l' h between h' same after =
    let g = Grant-epoch d r d₁ l (acquire-Grant d r d₁ l h) in
    let g' = Grant-epoch d₂ r' d₃ l' (acquire-Grant d₂ r' d₃ l' h') in
    let k : d₃.slot_epochs l.slot_id ≡ d₂.slot_epochs l.slot_id + 1 =
      subst (λ s. d₃.slot_epochs s ≡ d₂.slot_epochs s + 1) same g'.1 in
    Refused-of_epoch d₄ l
      (λ e. omega (arith, g, k, Reach-epochs l.slot_id between, Reach-epochs l.slot_id after))
