-- ===== src/SlotLease/Lifecycle.antt =====
-- The lifecycle operations of skills/agentdesk/scripts/worker_slot_lease.py: each runs under the
-- exclusive lock, so it is a function from the document to the new document or an exception.
use dockyard.Base.Text
use dockyard.Base.Text.{codes}
use Prim.Native.Nat.{◌+◌}
use dockyard.Base.{
  ℕ, zero, suc, ◌==◌, comparable_string, comparable_number, String, Bool, false, not, ◌&&◌, ◌||◌,
  List, [], ◌∷◌, map, Option, none, some, if◌then◌else◌, any, keep, leb, ltb, length, Attempt,
  returns, raises, ◌>>=◌, ◌>>◌, require, or_raise,
}
use dockyard.CoreTypes.{WorkerKind, comparable_kind}
use dockyard.SlotLease.Store.{
  Slot, comparable_slot, slot_kind, stable_slot_ids, WorkerSlotLease, Leases, LeaseStore, dt_to_utc,
  sentinel, lease_ttl, find, has, delete, assign, set_epoch,
}
use dockyard.SlotLease.Validate.{Violation, validate_worker_slot_store}

-- The exceptions: `type_error` and `value_error` are Python's, the others the module's classes
-- with what they are raised for.
pub data LeaseError : Type 0 where
  type_error value_error : LeaseError
  validation_error : List Violation → LeaseError
  write_refused : List Violation → LeaseError
  now_before_store now_before_acquired now_before_heartbeat lease_expired : LeaseError
  lease_id_mismatch epoch_mismatch kind_mismatch dispatch_mismatch instance_mismatch : LeaseError
  duplicate_pair no_free_slot : LeaseError
  slot_not_held : LeaseError
  ids_exhausted : LeaseError

-- `_validate_holder_id`, `_validate_holder_field`
unfoldable pub validate_holder_id : String → Attempt LeaseError (Unit {0})
validate_holder_id v = do
  require (not (Text.is_blank v)) type_error
  require (not (Text.is_wrapped v)) value_error
  require (not (Text.has_control v)) value_error

abbrev is_hex : ℕ → Bool
is_hex c = (leb b'0' c && leb c b'9') || (leb b'a' c && leb c b'f')

abbrev all_hex : List ℕ → Bool
all_hex cs = not (any (λ c. not (is_hex c)) cs)

abbrev is_prefix_hex : List ℕ → Bool
is_prefix_hex (a ∷ b ∷ c ∷ d ∷ rest) =
    a == b'W' && b == b'S' && c == b'L' && d == b'-' && length rest == 32 && all_hex rest
is_prefix_hex _ = false

-- `_LEASE_ID_RE.fullmatch`
unfoldable pub is_lease_id : String → Bool
is_lease_id s = is_prefix_hex (codes s)

-- `_looks_absolute`; `isalpha` of a drive letter is read as an ASCII letter.
unfoldable pub looks_absolute : List ℕ → Bool
looks_absolute (a ∷ b ∷ c ∷ _) =
    a == b'/'
    || (b == b':'
        && ((leb b'a' a && leb a b'z') || (leb b'A' a && leb a b'Z'))
        && (c == 92 || c == b'/'))
    || (a == 92 && b == 92)
looks_absolute (a ∷ _) = a == b'/'
looks_absolute [] = false

-- `_validate_worktree_string`
unfoldable pub validate_worktree : String → Attempt LeaseError (Unit {0})
unfolding looks_absolute
validate_worktree v = do
  require (not (Text.is_blank v)) type_error
  require (not (Text.is_wrapped v)) value_error
  require (not (Text.has_control v)) value_error
  require (looks_absolute (codes v)) value_error

-- `WorkerSlotLease.__post_init__`
unfoldable pub construct : WorkerSlotLease → Attempt LeaseError WorkerSlotLease
unfolding is_lease_id
construct l = do
  require (not (Text.is_blank l.lease_id)) type_error
  require (is_lease_id l.lease_id) value_error
  require (leb 1 l.lease_epoch) value_error
  require (l.worker_kind == slot_kind l.slot_id) value_error
  validate_holder_id l.holder_dispatch_id
  validate_holder_id l.holder_instance_id
  validate_worktree l.canonical_worktree
  require (leb l.acquired_at l.heartbeat_at) value_error
  require (ltb l.heartbeat_at l.expires_at) value_error
  returns l

abbrev pub accept : LeaseStore → List Violation → Attempt LeaseError LeaseStore
accept d [] = returns d
accept d (v ∷ vs) = raises (validation_error (v ∷ vs))

-- `_read_store_unlocked`
unfoldable pub read_store : LeaseStore → Attempt LeaseError LeaseStore
read_store d = accept d (validate_worker_slot_store d)

abbrev pub permit : LeaseStore → List Violation → Attempt LeaseError LeaseStore
permit d [] = returns d
permit d (v ∷ vs) = raises (write_refused (v ∷ vs))

-- `_atomic_write_store`: the validation that comes before the write.
unfoldable pub atomic_write_store : LeaseStore → Attempt LeaseError LeaseStore
atomic_write_store d = permit d (validate_worker_slot_store d)

-- `_check_now_monotonic`
unfoldable pub check_now_monotonic : ℕ → ℕ → Attempt LeaseError (Unit {0})
check_now_monotonic now updated_at =
    if updated_at == sentinel then returns tt else require (leb updated_at now) now_before_store

-- `_verify_lease_identity`
unfoldable pub verify_lease_identity :
    WorkerSlotLease → WorkerSlotLease → Attempt LeaseError (Unit {0})
verify_lease_identity stored lease = do
  require (stored.lease_id == lease.lease_id) lease_id_mismatch
  require (stored.lease_epoch == lease.lease_epoch) epoch_mismatch
  require (stored.worker_kind == lease.worker_kind) kind_mismatch
  require (stored.holder_dispatch_id == lease.holder_dispatch_id) dispatch_mismatch
  require (stored.holder_instance_id == lease.holder_instance_id) instance_mismatch

-- The first of `left` random ids, from the i-th on, that is not among the existing ones.
unfoldable pub first_unused : ℕ → (ℕ → String) → ℕ → List String → Option String
first_unused zero draws i existing = none
first_unused (suc left) draws i existing =
    if any (λ j. j == draws i) existing
    then first_unused left draws (i + 1) existing
    else some (draws i)

-- `_generate_unique_lease_id`; `draws` are the results of `secrets.token_hex`.
unfoldable pub generate_unique_lease_id : (ℕ → String) → List String → Attempt LeaseError String
unfolding first_unused
generate_unique_lease_id draws existing = or_raise (first_unused 16 draws 0 existing) ids_exhausted

-- The leases that are not expired at `now`.
unfoldable pub live : ℕ → Leases → Leases
live now ls = keep (λ e. ltb now e.1.expires_at) ls

unfoldable pub holds_pair : WorkerKind → String → Leases → Bool
holds_pair k w ls = any (λ e. e.1.worker_kind == k && e.1.canonical_worktree == w) ls

unfoldable pub candidate_slots : WorkerKind → Leases → List Slot
candidate_slots k ls = keep (λ s. slot_kind s == k && not (has s ls)) stable_slot_ids

abbrev pub first_of_list : List Slot → Option Slot
first_of_list [] = none
first_of_list (s ∷ ss) = some s

-- The arguments of `acquire_worker_slot`, the workspace as `_normalize_workspace` resolved it.
pub record AcquireRequest : Type 0 where
  pub worker_kind : WorkerKind
  pub holder_dispatch_id : String
  pub holder_instance_id : String
  pub canonical : String
  pub now : ℕ
  pub draws : ℕ → String

abbrev pub new_lease : AcquireRequest → Slot → ℕ → String → WorkerSlotLease
new_lease r slot epoch id = record {
  lease_id = id;
  lease_epoch = epoch;
  slot_id = slot;
  worker_kind = r.worker_kind;
  holder_dispatch_id = r.holder_dispatch_id;
  holder_instance_id = r.holder_instance_id;
  canonical_worktree = r.canonical;
  acquired_at = dt_to_utc r.now;
  heartbeat_at = dt_to_utc r.now;
  expires_at = dt_to_utc (r.now + lease_ttl);
}

-- `acquire_worker_slot`
unfoldable pub acquire_worker_slot :
    LeaseStore → AcquireRequest → Attempt LeaseError (LeaseStore × WorkerSlotLease)
acquire_worker_slot d r = do
  validate_holder_id r.holder_dispatch_id
  validate_holder_id r.holder_instance_id
  store ← read_store d
  check_now_monotonic r.now store.updated_at
  let leases = live r.now store.leases
  require (not (holds_pair r.worker_kind r.canonical leases)) duplicate_pair
  slot ← or_raise (first_of_list (candidate_slots r.worker_kind leases)) no_free_slot
  let epoch = store.slot_epochs slot + 1
  id ← generate_unique_lease_id r.draws (map (λ e. e.1.lease_id) store.leases)
  lease ← construct (new_lease r slot epoch id)
  let store' : LeaseStore = record {
    updated_at = dt_to_utc r.now;
    slot_epochs = set_epoch slot epoch store.slot_epochs;
    leases = assign slot lease leases;
  }
  written ← atomic_write_store store'
  returns (written, lease)

-- `release_worker_slot`
unfoldable pub release_worker_slot :
    LeaseStore → WorkerSlotLease → ℕ → Attempt LeaseError LeaseStore
release_worker_slot d lease now = do
  store ← read_store d
  check_now_monotonic now store.updated_at
  stored ← or_raise (find lease.slot_id store.leases) slot_not_held
  verify_lease_identity stored lease
  require (leb stored.acquired_at now) now_before_acquired
  atomic_write_store
      (record store { updated_at = dt_to_utc now; leases = delete lease.slot_id store.leases })

abbrev pub renewed : WorkerSlotLease → ℕ → WorkerSlotLease
renewed lease now = record lease {
  heartbeat_at = dt_to_utc now;
  expires_at = dt_to_utc (now + lease_ttl);
}

-- `renew_worker_slot`
unfoldable pub renew_worker_slot :
    LeaseStore → WorkerSlotLease → ℕ → Attempt LeaseError (LeaseStore × WorkerSlotLease)
renew_worker_slot d lease now = do
  store ← read_store d
  check_now_monotonic now store.updated_at
  stored ← or_raise (find lease.slot_id store.leases) slot_not_held
  verify_lease_identity stored lease
  require (leb stored.heartbeat_at now) now_before_heartbeat
  require (ltb now stored.expires_at) lease_expired
  new ← construct (renewed lease now)
  written ←
      atomic_write_store (record store {
        updated_at = dt_to_utc now;
        leases = assign lease.slot_id new store.leases;
      })
  returns (written, new)

-- The checks of `hold_worker_slot_fence` before it yields; it writes nothing.
unfoldable pub hold_worker_slot_fence :
    LeaseStore → WorkerSlotLease → ℕ → Attempt LeaseError (Unit {0})
hold_worker_slot_fence d lease now = do
  store ← read_store d
  check_now_monotonic now store.updated_at
  stored ← or_raise (find lease.slot_id store.leases) slot_not_held
  verify_lease_identity stored lease
  require (leb stored.heartbeat_at now) now_before_heartbeat
  require (ltb now stored.expires_at) lease_expired
