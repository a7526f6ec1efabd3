-- ===== src/SlotLease/Outcomes.antt =====
-- What a successful operation has checked, and the document that it writes.
use dockyard.Base.{
  ℕ, ◌+◌, ◌≡◌, refl, ◌≤◌, ◌<◌, ◌⊎◌, comparable_string, comparable_number, false, List, [], ◌∷◌, map,
  some, arith, returns, raises, require, or_raise, peel, past, leb, ltb, sym, subst, ◌∙◌, inl, inr,
  Option-cases,
}
use dockyard.CoreTypes.{comparable_kind}
use dockyard.SlotLease.Store.{
  comparable_slot, slot_kind, WorkerSlotLease, LeaseStore, dt_to_utc, find, delete, assign,
  set_epoch,
}
use dockyard.SlotLease.Validate.{Violation, validate_worker_slot_store}
use dockyard.SlotLease.Lifecycle.{
  LeaseError, now_before_acquired, now_before_heartbeat, lease_expired, slot_not_held,
  AcquireRequest, new_lease, accept, read_store, permit, atomic_write_store, live, holds_pair,
  candidate_slots, first_of_list, generate_unique_lease_id, construct, check_now_monotonic,
  acquire_worker_slot, release_worker_slot, renew_worker_slot, hold_worker_slot_fence, renewed,
  verify_lease_identity,
}

accept_cases :
    (d : LeaseStore) (vs : List Violation)
    → (vs ≡ []) × (accept d vs ≡ returns d) ⊎ ((e : LeaseError) × (accept d vs ≡ raises e))
accept_cases d [] = inl (refl, refl)
accept_cases d (v ∷ vs) = inr (_, refl)

-- The document is read as it is, if it is valid.
pub read_store_cases :
    (d : LeaseStore)
    → (validate_worker_slot_store d ≡ []) × (read_store d ≡ returns d)
      ⊎ ((e : LeaseError) × (read_store d ≡ raises e))
unfolding read_store
read_store_cases d = accept_cases d (validate_worker_slot_store d)

permit_cases :
    (d : LeaseStore) (vs : List Violation)
    → (vs ≡ []) × (permit d vs ≡ returns d) ⊎ ((e : LeaseError) × (permit d vs ≡ raises e))
permit_cases d [] = inl (refl, refl)
permit_cases d (v ∷ vs) = inr (_, refl)

-- The document is written as it is, if it is valid.
pub write_cases :
    (d : LeaseStore)
    → (validate_worker_slot_store d ≡ []) × (atomic_write_store d ≡ returns d)
      ⊎ ((e : LeaseError) × (atomic_write_store d ≡ raises e))
unfolding atomic_write_store
write_cases d = permit_cases d (validate_worker_slot_store d)

pub write_valid :
    (d : LeaseStore) → validate_worker_slot_store d ≡ [] → atomic_write_store d ≡ returns d
unfolding atomic_write_store
write_valid d h = rw h

pub read-eq_returns : (d e : LeaseStore) → read_store d ≡ returns e → e ≡ d
read-eq_returns d e h = grind (arith, read_store_cases d)

pub write-eq_returns :
    (d e : LeaseStore)
    → atomic_write_store d ≡ returns e
    → (e ≡ d) × (validate_worker_slot_store d ≡ [])
write-eq_returns d e h = grind (arith, write_cases d)

construct_cases :
    (l : WorkerSlotLease)
    → (construct l ≡ returns l) ⊎ ((e : LeaseError) × (construct l ≡ raises e))
unfolding construct
construct_cases l = ground arith

pub construct-eq_returns :
    (l m : WorkerSlotLease)
    → construct l ≡ returns m
    → (m ≡ l)
      × (l.worker_kind ≡ slot_kind l.slot_id)
      × (1 ≤ l.lease_epoch)
      × (l.acquired_at ≤ l.heartbeat_at)
      × (l.heartbeat_at < l.expires_at)
unfolding construct
construct-eq_returns l m h = ground arith

pub record Grant (d : LeaseStore) (r : AcquireRequest) (d' : LeaseStore) (l : WorkerSlotLease)
    : Type 0 where
  pub valid : validate_worker_slot_store d ≡ []
  pub monotonic : check_now_monotonic r.now d.updated_at ≡ returns tt
  pub pair_free : holds_pair r.worker_kind r.canonical (live r.now d.leases) ≡ false
  pub chosen : first_of_list (candidate_slots r.worker_kind (live r.now d.leases)) ≡ some l.slot_id
  pub drawn :
      generate_unique_lease_id r.draws (map (λ e. e.1.lease_id) d.leases) ≡ returns l.lease_id
  pub lease : l ≡ new_lease r l.slot_id (d.slot_epochs l.slot_id + 1) l.lease_id
  pub constructed : construct l ≡ returns l
  pub time : d'.updated_at ≡ dt_to_utc r.now
  pub epochs : d'.slot_epochs ≡ set_epoch l.slot_id (d.slot_epochs l.slot_id + 1) d.slot_epochs
  pub written : d'.leases ≡ assign l.slot_id l (live r.now d.leases)

pub acquire-Grant :
    (d : LeaseStore) (r : AcquireRequest) (d' : LeaseStore) (l : WorkerSlotLease)
    → acquire_worker_slot d r ≡ returns (d', l)
    → Grant d r d' l
unfolding acquire_worker_slot
acquire-Grant d r d' l h = grind (arith, read_store_cases, construct_cases, write_cases)

-- The stored lease that an operation on `lease` found and matched.
pub record Held (d : LeaseStore) (lease stored : WorkerSlotLease) (now : ℕ) : Type 0 where
  pub valid : validate_worker_slot_store d ≡ []
  pub monotonic : check_now_monotonic now d.updated_at ≡ returns tt
  pub found : find lease.slot_id d.leases ≡ some stored
  pub same_id : stored.lease_id ≡ lease.lease_id
  pub same_epoch : stored.lease_epoch ≡ lease.lease_epoch
  pub same_kind : stored.worker_kind ≡ lease.worker_kind
  pub same_dispatch : stored.holder_dispatch_id ≡ lease.holder_dispatch_id
  pub same_instance : stored.holder_instance_id ≡ lease.holder_instance_id

-- A release writes the document without the lease, if that is valid.
pub release-written :
    (d : LeaseStore) (lease : WorkerSlotLease) (now : ℕ) (d' : LeaseStore)
    → release_worker_slot d lease now ≡ returns d'
    → (d' ≡ record d { updated_at = dt_to_utc now; leases = delete lease.slot_id d.leases })
      × (validate_worker_slot_store d' ≡ [])
unfolding release_worker_slot
release-written d lease now d' h =
    let (store, i₁, k₁) = peel (read_store d) _ d' h in
    let k₂ = past (check_now_monotonic now store.updated_at) _ d' k₁ in
    let (stored, i₂, k₃) =
      peel (or_raise (find lease.slot_id store.leases) slot_not_held) _ d' k₂ in
    let k₄ = past (verify_lease_identity stored lease) _ d' k₃ in
    let k₅ = past (require (leb stored.acquired_at now) now_before_acquired) _ d' k₄ in
    let (e, v) = write-eq_returns _ d' k₅ in
    (
      e ∙ rw (read-eq_returns d store i₁) refl,
      subst (λ x. validate_worker_slot_store x ≡ []) (sym e) v,
    )

pub release-Held :
    (d : LeaseStore) (lease : WorkerSlotLease) (now : ℕ) (d' : LeaseStore)
    → release_worker_slot d lease now ≡ returns d'
    → (stored : WorkerSlotLease) × Held d lease stored now
      × (stored.acquired_at ≤ now)
      × (d' ≡ record d { updated_at = dt_to_utc now; leases = delete lease.slot_id d.leases })
unfolding release_worker_slot verify_lease_identity
release-Held d lease now d' h = elim (Option-cases (find lease.slot_id d.leases)) [
  | inl absent ↦ absurd (grind (arith, read_store_cases))
  | inr (stored, found) ↦ (
    stored,
    grind (arith, read_store_cases),
    grind (arith, read_store_cases),
    (release-written d lease now d' h).0,
  )
]

-- A renewal writes what it has built, if that is valid.
pub renew-written :
    (d : LeaseStore) (lease : WorkerSlotLease) (now : ℕ) (d' : LeaseStore) (new : WorkerSlotLease)
    → renew_worker_slot d lease now ≡ returns (d', new)
    → (d' ≡ record d { updated_at = dt_to_utc now; leases = assign lease.slot_id new d.leases })
      × (validate_worker_slot_store d' ≡ [])
unfolding renew_worker_slot
renew-written d lease now d' new h =
    let (store, i₁, k₁) = peel (read_store d) _ (d', new) h in
    let k₂ = past (check_now_monotonic now store.updated_at) _ (d', new) k₁ in
    let (stored, i₂, k₃) =
      peel (or_raise (find lease.slot_id store.leases) slot_not_held) _ (d', new) k₂ in
    let k₄ = past (verify_lease_identity stored lease) _ (d', new) k₃ in
    let k₅ = past (require (leb stored.heartbeat_at now) now_before_heartbeat) _ (d', new) k₄ in
    let k₆ = past (require (ltb now stored.expires_at) lease_expired) _ (d', new) k₅ in
    let (m, i₃, k₇) = peel (construct (renewed lease now)) _ (d', new) k₆ in
    let (written, i₄, k₈) =
      peel
        (atomic_write_store (record store {
          updated_at = dt_to_utc now;
          leases = assign lease.slot_id m store.leases;
        }))
        _ (d', new) k₇ in
    let same : m ≡ new = ground (arith) in
    let there : written ≡ d' = ground (arith) in
    let (e, v) = write-eq_returns _ written i₄ in
    (
      sym there ∙ e ∙ (rw (same, sym (read-eq_returns d store i₁)) refl),
      subst (λ x. validate_worker_slot_store x ≡ []) (sym e ∙ there) v,
    )

pub renew-Held :
    (d : LeaseStore) (lease : WorkerSlotLease) (now : ℕ) (d' : LeaseStore) (new : WorkerSlotLease)
    → renew_worker_slot d lease now ≡ returns (d', new)
    → (stored : WorkerSlotLease) × Held d lease stored now
      × (stored.heartbeat_at ≤ now)
      × (now < stored.expires_at)
      × (construct (renewed lease now) ≡ returns new)
      × (new ≡ renewed lease now)
      × (d' ≡ record d { updated_at = dt_to_utc now; leases = assign lease.slot_id new d.leases })
unfolding renew_worker_slot verify_lease_identity
renew-Held d lease now d' new h = elim (Option-cases (find lease.slot_id d.leases)) [
  | inl absent ↦ absurd (grind (arith, read_store_cases))
  | inr (stored, found) ↦ (
    stored,
    grind (arith, read_store_cases),
    grind (arith, read_store_cases),
    grind (arith, read_store_cases),
    grind (arith, read_store_cases, construct_cases, write_cases),
    grind (arith, read_store_cases, construct_cases, write_cases),
    (renew-written d lease now d' new h).0,
  )
]

pub fence-Held :
    (d : LeaseStore) (lease : WorkerSlotLease) (now : ℕ)
    → hold_worker_slot_fence d lease now ≡ returns tt
    → (stored : WorkerSlotLease) × Held d lease stored now
      × (stored.heartbeat_at ≤ now)
      × (now < stored.expires_at)
unfolding hold_worker_slot_fence verify_lease_identity
fence-Held d lease now h = elim (Option-cases (find lease.slot_id d.leases)) [
  | inl absent ↦ absurd (grind (arith, read_store_cases))
  | inr (stored, found) ↦ (
    stored,
    grind (arith, read_store_cases),
    grind (arith, read_store_cases),
    grind (arith, read_store_cases),
  )
]
