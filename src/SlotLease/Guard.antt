-- ===== src/SlotLease/Guard.antt =====
-- When `_atomic_write_store` of skills/agentdesk/scripts/worker_slot_lease.py refuses a document
-- that an operation has built.
use dockyard.Base.{
  ℕ, ◌+◌, ◌≡◌, ◌≢◌, refl, ap, ◌∙◌, ltb, leb, comparable_string, comparable_number, String, Bool,
  not, List, [], ◌∷◌, map, Option, none, some, arith, Attempt, returns, raises, require, or_raise,
  ◌>>=◌, ◌>>◌,
}
use dockyard.CoreTypes.{comparable_kind}
use dockyard.SlotLease.Store.{
  comparable_slot, WorkerSlotLease, LeaseStore, find, assign, set_epoch, dt_to_utc,
}
use dockyard.SlotLease.Validate.{Violation, validate_worker_slot_store}
use dockyard.SlotLease.Lifecycle.{
  LeaseError, write_refused, duplicate_pair, no_free_slot, slot_not_held, now_before_acquired,
  now_before_heartbeat, lease_expired, AcquireRequest, new_lease, renewed, accept, read_store, live,
  holds_pair, candidate_slots, first_of_list, generate_unique_lease_id, validate_holder_id,
  validate_worktree, construct, check_now_monotonic, verify_lease_identity, acquire_worker_slot,
  release_worker_slot, renew_worker_slot,
}
use dockyard.SlotLease.Outcomes.{
  construct-eq_returns, read-eq_returns, read_store_cases, write_valid,
}
use dockyard.SlotLease.Validity.{Grant-valid, delete-valid, renewed-valid}

-- A chain that raises what its first part does not raise goes on.
further :
    {A B : Type 0} (m : Attempt LeaseError A) (next : A → Attempt LeaseError B) (e : LeaseError)
    → (m >>= next) ≡ raises e
    → m ≢ raises e
    → (a : A) × (m ≡ returns a) × (next a ≡ raises e)
further (raises x) next e h n = absurd (n (ground (arith)))
further (returns a) next e h n = (a, refl, h)

beyond :
    {B : Type 0} (m : Attempt LeaseError (Unit {0})) (next : Attempt LeaseError B) (e : LeaseError)
    → (m >> next) ≡ raises e
    → m ≢ raises e
    → (m ≡ returns tt) × (next ≡ raises e)
beyond (raises x) next e h n = absurd (n (ground (arith)))
beyond (returns tt) next e h n = (refl, h)

holder_quiet : (v : String) (vs : List Violation) → validate_holder_id v ≢ raises (write_refused vs)
unfolding validate_holder_id
holder_quiet v vs h = ground arith

worktree_quiet :
    (v : String) (vs : List Violation) → validate_worktree v ≢ raises (write_refused vs)
unfolding validate_worktree
worktree_quiet v vs h = ground arith

accept_quiet : (d : LeaseStore) (us vs : List Violation) → accept d us ≢ raises (write_refused vs)
accept_quiet d [] vs h = ground arith
accept_quiet d (u ∷ us) vs h = ground arith

read_quiet : (d : LeaseStore) (vs : List Violation) → read_store d ≢ raises (write_refused vs)
unfolding read_store
read_quiet d vs h = accept_quiet d (validate_worker_slot_store d) vs h

monotonic_quiet :
    (now t : ℕ) (vs : List Violation) → check_now_monotonic now t ≢ raises (write_refused vs)
unfolding check_now_monotonic
monotonic_quiet now t vs h = ground arith

verify_quiet :
    (a b : WorkerSlotLease) (vs : List Violation)
    → verify_lease_identity a b ≢ raises (write_refused vs)
unfolding verify_lease_identity
verify_quiet a b vs h = ground arith

construct_quiet :
    (l : WorkerSlotLease) (vs : List Violation) → construct l ≢ raises (write_refused vs)
unfolding construct
construct_quiet l vs h = ground (
  arith,
  holder_quiet l.holder_dispatch_id vs,
  holder_quiet l.holder_instance_id vs,
  worktree_quiet l.canonical_worktree vs,
)

require_quiet : (b : Bool) (e f : LeaseError) → e ≢ f → require b e ≢ raises f
require_quiet b e f n h = ground arith

or_raise_quiet : {A : Type 0} (o : Option A) (e f : LeaseError) → e ≢ f → or_raise o e ≢ raises f
or_raise_quiet none e f n h = ground arith
or_raise_quiet (some a) e f n h = ground arith

drawn_quiet :
    (draws : ℕ → String) (ids : List String) (vs : List Violation)
    → generate_unique_lease_id draws ids ≢ raises (write_refused vs)
unfolding generate_unique_lease_id
drawn_quiet draws ids vs h = or_raise_quiet _ _ _ (λ e. cc) h

read_valid_of : (d e : LeaseStore) → read_store d ≡ returns e → validate_worker_slot_store d ≡ []
read_valid_of d e h = grind (arith, read_store_cases d)

-- An acquisition is never refused by the validation before its write, whatever the document and
-- the request.
pub acquire-unrefused :
    (d : LeaseStore) (r : AcquireRequest) (vs : List Violation)
    → acquire_worker_slot d r ≢ raises (write_refused vs)
unfolding acquire_worker_slot
acquire-unrefused d r vs h =
    let e = write_refused vs in
    let (i₁, k₁) = beyond (validate_holder_id r.holder_dispatch_id) _ e h (holder_quiet _ vs) in
    let (i₂, k₂) = beyond (validate_holder_id r.holder_instance_id) _ e k₁ (holder_quiet _ vs) in
    let (store, i₃, k₃) = further (read_store d) _ e k₂ (read_quiet d vs) in
    let k₃' = rw (read-eq_returns d store i₃) at k₃ in
    let (i₄, k₄) =
      beyond (check_now_monotonic r.now d.updated_at) _ e k₃' (monotonic_quiet _ _ vs) in
    let free = not (holds_pair r.worker_kind r.canonical (live r.now d.leases)) in
    let (i₅, k₅) =
      beyond (require free duplicate_pair) _ e k₄ (require_quiet free duplicate_pair e (λ x. cc)) in
    let first = first_of_list (candidate_slots r.worker_kind (live r.now d.leases)) in
    let (s, i₆, k₆) =
      further (or_raise first no_free_slot) _ e k₅
        (or_raise_quiet first no_free_slot e (λ x. cc)) in
    let (id, i₇, k₇) =
      further (generate_unique_lease_id r.draws (map (λ x. x.1.lease_id) d.leases)) _ e k₆
        (drawn_quiet _ _ vs) in
    let new = new_lease r s (d.slot_epochs s + 1) id in
    let (l, i₈, k₈) = further (construct new) _ e k₇ (construct_quiet new vs) in
    let same = (construct-eq_returns new l i₈).0 in
    let k₉ = rw same at k₈ in
    let v =
      Grant-valid d r
        (record {
          updated_at = dt_to_utc r.now;
          slot_epochs = set_epoch s (d.slot_epochs s + 1) d.slot_epochs;
          leases = assign s new (live r.now d.leases);
        })
        new
        (record {
          valid = read_valid_of d store i₃;
          monotonic = i₄;
          pair_free = ground (arith, i₅);
          chosen = ground (arith, i₆);
          drawn = i₇;
          lease = refl;
          constructed = i₈ ∙ ap returns same;
          time = refl;
          epochs = refl;
          written = refl;
        }) in
    let k = rw (write_valid _ v) at k₉ in ground (arith, k)

-- A release is never refused by the validation before its write.
pub release-unrefused :
    (d : LeaseStore) (lease : WorkerSlotLease) (now : ℕ) (vs : List Violation)
    → release_worker_slot d lease now ≢ raises (write_refused vs)
unfolding release_worker_slot
release-unrefused d lease now vs h =
    let e = write_refused vs in
    let (store, i₁, k₁) = further (read_store d) _ e h (read_quiet d vs) in
    let k₁' = rw (read-eq_returns d store i₁) at k₁ in
    let (i₂, k₂) = beyond (check_now_monotonic now d.updated_at) _ e k₁' (monotonic_quiet _ _ vs) in
    let (stored, i₃, k₃) =
      further (or_raise (find lease.slot_id d.leases) slot_not_held) _ e k₂
        (or_raise_quiet _ slot_not_held e (λ x. cc)) in
    let (i₄, k₄) = beyond (verify_lease_identity stored lease) _ e k₃ (verify_quiet _ _ vs) in
    let (i₅, k₅) =
      beyond (require (leb stored.acquired_at now) now_before_acquired) _ e k₄
        (require_quiet _ now_before_acquired e (λ x. cc)) in
    let v = delete-valid d lease.slot_id (dt_to_utc now) (read_valid_of d store i₁) in
    let k = rw (write_valid _ v) at k₅ in ground (arith, k)

-- A renewal whose copy of the lease names the stored worktree is never refused by the validation
-- before its write.
pub renew-unrefused :
    (d : LeaseStore) (lease stored : WorkerSlotLease) (now : ℕ) (vs : List Violation)
    → find lease.slot_id d.leases ≡ some stored
    → lease.canonical_worktree ≡ stored.canonical_worktree
    → renew_worker_slot d lease now ≢ raises (write_refused vs)
unfolding renew_worker_slot
renew-unrefused d lease stored now vs found same h =
    let e = write_refused vs in
    let (store, i₁, k₁) = further (read_store d) _ e h (read_quiet d vs) in
    let k₁' = rw (read-eq_returns d store i₁) at k₁ in
    let (i₂, k₂) = beyond (check_now_monotonic now d.updated_at) _ e k₁' (monotonic_quiet _ _ vs) in
    let k₃ = rw found at k₂ in
    let (i₄, k₄) = beyond (verify_lease_identity stored lease) _ e k₃ (verify_quiet _ _ vs) in
    let (i₅, k₅) =
      beyond (require (leb stored.heartbeat_at now) now_before_heartbeat) _ e k₄
        (require_quiet _ now_before_heartbeat e (λ x. cc)) in
    let (i₆, k₆) =
      beyond (require (ltb now stored.expires_at) lease_expired) _ e k₅
        (require_quiet _ lease_expired e (λ x. cc)) in
    let (new, i₇, k₇) = further (construct (renewed lease now)) _ e k₆ (construct_quiet _ vs) in
    let v = renewed-valid d lease stored new now (read_valid_of d store i₁) found i₄ same i₇ in
    let k = rw (write_valid _ v) at k₇ in ground (arith, k)
