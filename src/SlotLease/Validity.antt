-- ===== src/SlotLease/Validity.antt =====
-- The documents that the operations build pass the validation that comes before the write.
use dockyard.Base.{
  ℕ, ◌+◌, ◌≡◌, refl, ◌==◌, comparable_string, comparable_number, String, false, [], ◌∷◌, map, some,
  any, arith, All, All-keep, returns, subst, sym, ◌∙◌,
}
use dockyard.CoreTypes.{comparable_kind}
use dockyard.SlotLease.Store.{
  Slot, comparable_slot, slot_kind, WorkerSlotLease, Leases, LeaseStore, find, has, set_epoch,
  delete, assign, dt_to_utc,
}
use dockyard.SlotLease.Validate.{validate_worker_slot_store}
use dockyard.SlotLease.WellFormed.{Fits, Apart, AllApart, validate-nil-iff_IsWellFormed}
use dockyard.SlotLease.Lifecycle.{
  AcquireRequest, new_lease, renewed, live, holds_pair, verify_lease_identity, construct,
}
use dockyard.SlotLease.Outcomes.{Grant, construct-eq_returns}
use dockyard.SlotLease.Preserves.{
  All-delete, All-assign, AllApart-keep, AllApart-delete, AllApart-assign_new, AllApart-assign_same,
  candidate_lem, unused_lem,
}

-- An id outside the old document and a pair outside the live leases stand apart from these.
Apart-new :
    (now : ℕ) (m : WorkerSlotLease) (ls : Leases)
    → any (λ j. j == m.lease_id) (map (λ e. e.1.lease_id) ls) ≡ false
    → holds_pair m.worker_kind m.canonical_worktree (live now ls) ≡ false
    → All (λ e. Apart e.1 m) (live now ls)
unfolding live holds_pair
Apart-new now m [] h k = tt
Apart-new now m (e ∷ ls) h k = ground (arith, Apart-new now m ls)

-- A new epoch at a slot that no entry has.
Fits-set_epoch :
    (s : Slot) (n : ℕ) (f : Slot → ℕ) (ls : Leases)
    → has s ls ≡ false
    → All (Fits f) ls
    → All (Fits (set_epoch s n f)) ls
unfolding has set_epoch
Fits-set_epoch s n f [] h a = tt
Fits-set_epoch s n f ((t, l) ∷ ls) h a = ground (arith, Fits-set_epoch s n f ls)

Fits-new :
    (r : AcquireRequest) (s : Slot) (n : ℕ) (id : String) (f : Slot → ℕ)
    → slot_kind s ≡ r.worker_kind
    → Fits (set_epoch s n f) (s, new_lease r s n id)
unfolding set_epoch
Fits-new r s n id f k = ground arith

pub find-Fits :
    (epochs : Slot → ℕ) (s : Slot) (x : WorkerSlotLease) (ls : Leases)
    → find s ls ≡ some x
    → All (Fits epochs) ls
    → Fits epochs (s, x)
unfolding find
find-Fits epochs s x [] h a = cc
find-Fits epochs s x ((t, l) ∷ ls) h a = ground (arith, find-Fits epochs s x ls)

module _ (d : LeaseStore) (r : AcquireRequest) (d' : LeaseStore) (l : WorkerSlotLease)
    (g : Grant d r d' l) where
  abbrev kept : Leases
  kept = live r.now d.leases

  acquire_apart : AllApart d.leases → AllApart d'.leases
  unfolding live
  acquire_apart a =
      let c = candidate_lem r.worker_kind kept l.slot_id g.chosen in
      rw g.written (
        AllApart-assign_new l.slot_id l kept c.1
          (Apart-new r.now l d.leases (unused_lem r.draws _ l.lease_id g.drawn) (
            subst (λ m. holds_pair m.worker_kind m.canonical_worktree kept ≡ false) (sym g.lease)
              g.pair_free))
          (AllApart-keep _ d.leases a))

  acquire-Fits : All (Fits d.slot_epochs) d.leases → All (Fits d'.slot_epochs) d'.leases
  unfolding live
  acquire-Fits a =
      let c = candidate_lem r.worker_kind kept l.slot_id g.chosen in
      rw (g.written, g.epochs)
        (All-assign _ l.slot_id l kept
          (Fits-set_epoch l.slot_id _ d.slot_epochs kept c.1 (All-keep _ _ d.leases a))
          (subst
            (λ m.
              Fits (set_epoch l.slot_id (d.slot_epochs l.slot_id + 1) d.slot_epochs) (l.slot_id, m))
            (sym g.lease) (Fits-new r l.slot_id _ l.lease_id d.slot_epochs c.0)))

-- The document of a grant passes validation.
pub Grant-valid :
    (d : LeaseStore) (r : AcquireRequest) (d' : LeaseStore) (l : WorkerSlotLease)
    → Grant d r d' l
    → validate_worker_slot_store d' ≡ []
Grant-valid d r d' l g =
    let w = (validate-nil-iff_IsWellFormed d).0 g.valid in
    (validate-nil-iff_IsWellFormed d').1
      (record { fits = acquire-Fits d r d' l g w.fits; apart = acquire_apart d r d' l g w.apart })

-- A valid document stays valid without one of its leases.
pub delete-valid :
    (d : LeaseStore) (s : Slot) (time : ℕ)
    → validate_worker_slot_store d ≡ []
    → validate_worker_slot_store (record d { updated_at = time; leases = delete s d.leases }) ≡ []
delete-valid d s time v =
    let w = (validate-nil-iff_IsWellFormed d).0 v in
    (validate-nil-iff_IsWellFormed _).1
      (record { fits = All-delete _ s d.leases w.fits; apart = AllApart-delete s d.leases w.apart })

verify-same :
    (stored lease : WorkerSlotLease)
    → verify_lease_identity stored lease ≡ returns tt
    → (stored.lease_id ≡ lease.lease_id)
      × (stored.lease_epoch ≡ lease.lease_epoch)
      × (stored.worker_kind ≡ lease.worker_kind)
unfolding verify_lease_identity
verify-same stored lease h = ground arith

-- A valid document stays valid when a lease is renewed with a copy that names its worktree.
pub renewed-valid :
    (d : LeaseStore) (lease stored new : WorkerSlotLease) (now : ℕ)
    → validate_worker_slot_store d ≡ []
    → find lease.slot_id d.leases ≡ some stored
    → verify_lease_identity stored lease ≡ returns tt
    → lease.canonical_worktree ≡ stored.canonical_worktree
    → construct (renewed lease now) ≡ returns new
    → validate_worker_slot_store
        (record d { updated_at = dt_to_utc now; leases = assign lease.slot_id new d.leases })
      ≡ []
renewed-valid d lease stored new now v f i c built =
    let (same_id, same_epoch, same_kind) = verify-same stored lease i in
    let w = (validate-nil-iff_IsWellFormed d).0 v in
    let k = construct-eq_returns (renewed lease now) new built in
    let stored_fits = find-Fits d.slot_epochs lease.slot_id stored d.leases f w.fits in
    let n : Fits d.slot_epochs (lease.slot_id, renewed lease now) =
      (refl, k.1, sym same_epoch ∙ stored_fits.2, k.3, k.4) in
    rw k.0 (
      (validate-nil-iff_IsWellFormed _).1 (record {
        fits = All-assign _ lease.slot_id (renewed lease now) d.leases w.fits n;
        apart =
            AllApart-assign_same lease.slot_id (renewed lease now) stored d.leases f
              (record { same_id = sym same_id; same_kind = sym same_kind; same_worktree = c })
              w.apart;
      }))
