-- ===== src/SlotLease/Tenure.antt =====
-- The life of one lease: from its grant to its expiry or release it passes the fence, nobody else
-- gets its slot or its worktree, and it can be released once.
use dockyard.Base.{
  ℕ, ◌+◌, ◌≡◌, refl, ◌≤◌, ◌<◌, comparable_string, true, [], ◌∷◌, none, some, arith, returns, raises,
  subst, sym, ap,
}
use dockyard.CoreTypes.{comparable_kind}
use dockyard.SlotLease.Store.{
  Slot, comparable_slot, WorkerSlotLease, Leases, LeaseStore, find, delete, assign, dt_to_utc,
  lease_ttl,
}
use dockyard.SlotLease.Validate.{validate_worker_slot_store}
use dockyard.SlotLease.Lifecycle.{
  slot_not_held, duplicate_pair, AcquireRequest, read_store, live, holds_pair, validate_holder_id,
  check_now_monotonic, verify_lease_identity, acquire_worker_slot, release_worker_slot,
  renew_worker_slot, hold_worker_slot_fence,
}
use dockyard.SlotLease.Outcomes.{
  acquire-Grant, release-Held, renew-Held, fence-Held, release-written, renew-written,
}
use dockyard.SlotLease.Validity.{Grant-valid}

pub find-assign : (s : Slot) (m : WorkerSlotLease) (ls : Leases) → find s (assign s m ls) ≡ some m
unfolding find assign
find-assign s m [] = ground arith
find-assign s m ((t, l) ∷ ls) = ground (arith, find-assign s m ls)

find-delete : (s : Slot) (ls : Leases) → find s (delete s ls) ≡ none
unfolding find delete
find-delete s [] = refl
find-delete s ((t, l) ∷ ls) = ground (arith, find-delete s ls)

pub read_valid : (d : LeaseStore) → validate_worker_slot_store d ≡ [] → read_store d ≡ returns d
unfolding read_store
read_valid d h = rw h

-- A time is not before its own written form.
monotonic_self : (now t : ℕ) → now ≤ t → check_now_monotonic t (dt_to_utc now) ≡ returns tt
unfolding check_now_monotonic
monotonic_self now t h = ground arith

verify_self : (l : WorkerSlotLease) → verify_lease_identity l l ≡ returns tt
unfolding verify_lease_identity
verify_self l = ground arith

fence_written :
    (d : LeaseStore) (l : WorkerSlotLease) (now t : ℕ)
    → validate_worker_slot_store d ≡ []
    → d.updated_at ≡ dt_to_utc now
    → find l.slot_id d.leases ≡ some l
    → l.heartbeat_at ≡ dt_to_utc now
    → now ≤ t
    → t < l.expires_at
    → hold_worker_slot_fence d l t ≡ returns tt
unfolding hold_worker_slot_fence
fence_written d l now t v u f b h k =
    ground (arith, read_valid d v, monotonic_self now t h, verify_self l)

-- A granted lease passes the fence at every instant from its grant until it expires, on the
-- document that the grant wrote.
pub acquire-fence :
    (d : LeaseStore) (r : AcquireRequest) (d' : LeaseStore) (l : WorkerSlotLease) (t : ℕ)
    → acquire_worker_slot d r ≡ returns (d', l)
    → r.now ≤ t
    → t < l.expires_at
    → hold_worker_slot_fence d' l t ≡ returns tt
acquire-fence d r d' l t h a b =
    let g = acquire-Grant d r d' l h in
    fence_written d' l r.now t (Grant-valid d r d' l g) g.time
      (rw g.written (find-assign l.slot_id l _)) (ap (λ m. m.heartbeat_at) g.lease) a b

-- A renewed lease passes the fence from the renewal until sixty seconds later, to the whole second, on the document that the renewal wrote.
pub renew-fence :
    (d : LeaseStore) (lease : WorkerSlotLease) (now : ℕ) (d' : LeaseStore) (new : WorkerSlotLease)
    (t : ℕ)
    → renew_worker_slot d lease now ≡ returns (d', new)
    → now ≤ t
    → t < dt_to_utc (now + lease_ttl)
    → hold_worker_slot_fence d' new t ≡ returns tt
renew-fence d lease now d' new t h a b =
    let (_, held, started, unexpired, built, e, e') = renew-Held d lease now d' new h in
    let v = (renew-written d lease now d' new h).1 in
    fence_written d' new now t v (ap (λ x. x.updated_at) e')
      (subst (λ x. find x.slot_id d'.leases ≡ some new) (sym e)
        (rw e' (find-assign lease.slot_id new d.leases)))
      (ap (λ m. m.heartbeat_at) e) a (rw e b)

-- After a release, a second release, a renewal and the fence of the same lease fail with slot-
-- not-held at every later instant.
pub release-not_held :
    (d : LeaseStore) (lease : WorkerSlotLease) (now : ℕ) (d' : LeaseStore) (t : ℕ)
    → release_worker_slot d lease now ≡ returns d'
    → now ≤ t
    → (release_worker_slot d' lease t ≡ raises slot_not_held)
      × (renew_worker_slot d' lease t ≡ raises slot_not_held)
      × (hold_worker_slot_fence d' lease t ≡ raises slot_not_held)
unfolding release_worker_slot renew_worker_slot hold_worker_slot_fence
release-not_held d lease now d' t h a =
    let v = (release-written d lease now d' h).1 in
    let (stored, held, later, e) = release-Held d lease now d' h in
    let m : check_now_monotonic t d'.updated_at ≡ returns tt = rw e (monotonic_self now t a) in
    let f : find lease.slot_id d'.leases ≡ none = rw e (find-delete lease.slot_id d.leases) in
    rw (read_valid d' v, m, f) (refl, refl, refl)

holds_found :
    (now : ℕ) (s : Slot) (x : WorkerSlotLease) (ls : Leases)
    → find s ls ≡ some x
    → now < x.expires_at
    → holds_pair x.worker_kind x.canonical_worktree (live now ls) ≡ true
unfolding find holds_pair live
holds_found now s x [] h k = cc
holds_found now s x ((t, l) ∷ ls) h k = ground (arith, holds_found now s x ls)

-- While a lease passes the fence at some instant, a request at that instant for its kind of
-- worker on the stored worktree, with well-formed holder ids, is refused as a duplicate.
pub fence-exclusive :
    (d : LeaseStore) (lease stored : WorkerSlotLease) (r : AcquireRequest)
    → hold_worker_slot_fence d lease r.now ≡ returns tt
    → find lease.slot_id d.leases ≡ some stored
    → r.worker_kind ≡ lease.worker_kind
    → r.canonical ≡ stored.canonical_worktree
    → validate_holder_id r.holder_dispatch_id ≡ returns tt
    → validate_holder_id r.holder_instance_id ≡ returns tt
    → acquire_worker_slot d r ≡ raises duplicate_pair
unfolding acquire_worker_slot
fence-exclusive d lease stored r h f k c i j =
    let (kept, held, started, unexpired) = fence-Held d lease r.now h in
    let same : kept ≡ stored = cc held.found in
    let p = holds_found r.now lease.slot_id kept d.leases held.found unexpired in
    let q : holds_pair r.worker_kind r.canonical (live r.now d.leases) ≡ true =
      rw (k, c, ← held.same_kind, ← same) p in
    rw (i, j, read_valid d held.valid, held.monotonic, q) refl
