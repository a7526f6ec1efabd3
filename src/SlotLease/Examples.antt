-- ===== src/SlotLease/Examples.antt =====
-- Two workers on an empty document, and the theorems at what they do.
use dockyard.Base.Text
use dockyard.Base.{
  ℕ, ◌*◌, ◌+◌, ◌↔◌, ◌≡◌, refl, ◌≢◌, String, [], ◌∷◌, some, arith, returns, raises, if◌then◌else◌,
  ◌==◌, comparable_number, ℕ_discrete, String-discrete,
}
use dockyard.CoreTypes.{basic_agent, WorkerKind-discrete}
use dockyard.SlotLease.Store.{
  Slot-discrete, slot_kind, WorkerSlotLease, LeaseStore, canonical_empty_store, find, has, delete,
  assign, set_epoch, second, sentinel, basic_agent_1, basic_agent_2,
}
use dockyard.SlotLease.Validate.{
  pair_duplicated, validate_worker_slot_store, seen_id, seen_pair, note_id,
}
use dockyard.SlotLease.Lifecycle.{
  AcquireRequest, new_lease, renewed, acquire_worker_slot, release_worker_slot, renew_worker_slot,
  hold_worker_slot_fence, no_free_slot, duplicate_pair, slot_not_held, validate_holder_id,
  validate_worktree, construct, read_store, atomic_write_store, write_refused, check_now_monotonic,
  verify_lease_identity, live, holds_pair, candidate_slots, generate_unique_lease_id, lease_expired,
  is_lease_id,
}
use dockyard.SlotLease.Capacity.{granted, outcome, lowest_free}
use dockyard.SlotLease.Guard.{acquire-unrefused, renew-unrefused}
use dockyard.SlotLease.WellFormed.{IsWellFormed, validate-nil-iff_IsWellFormed}
use dockyard.SlotLease.Fencing.{here, next, releases, Refused, superseded-Refused}
use dockyard.SlotLease.Tenure.{acquire-fence, release-not_held, fence-exclusive}
use dockyard.SlotLease.Capacity.{acquire-eq_outcome, IsSound}
use dockyard.SlotLease.Foreign.{renew-overwrites, renew_foreign-refused}

program : Unit {0}
unfolding acquire_worker_slot release_worker_slot renew_worker_slot hold_worker_slot_fence
    validate_holder_id validate_worktree construct read_store atomic_write_store check_now_monotonic
    verify_lease_identity live holds_pair candidate_slots generate_unique_lease_id
    validate_worker_slot_store seen_id seen_pair note_id canonical_empty_store find has delete
    assign set_epoch slot_kind Slot-discrete WorkerKind-discrete ℕ_discrete String-discrete
    Text.is_blank Text.is_wrapped Text.has_control is_lease_id
program = tt

abbrev noon : ℕ
noon = sentinel + 1800000000 * second

abbrev draw : ℕ → String
draw n =
    if n == 0
    then "WSL-0123456789abcdef0123456789abcdef"
    else "WSL-00000000000000000000000000000001"

abbrev request : String → ℕ → AcquireRequest
request worktree now = record {
  worker_kind = basic_agent;
  holder_dispatch_id = "DSP-1";
  holder_instance_id = "worker-a";
  canonical = worktree;
  now = now;
  draws = draw;
}

abbrev first_lease : WorkerSlotLease
first_lease = new_lease (request "/w/a" noon) basic_agent_1 1 (draw 0)

abbrev after_first : LeaseStore
after_first = (granted canonical_empty_store (request "/w/a" noon) (draw 0) basic_agent_1).0

first_run :
    acquire_worker_slot canonical_empty_store (request "/w/a" noon)
    ≡ returns (after_first, first_lease)
unfolding program
first_run = refl

-- Worker b joins; the first drawn id is taken, so the second is used.
abbrev second_request : AcquireRequest
second_request = request "/w/b" (noon + second)

abbrev second_lease : WorkerSlotLease
second_lease = new_lease second_request basic_agent_2 1 (draw 1)

abbrev after_second : LeaseStore
after_second = (granted after_first second_request (draw 1) basic_agent_2).0

second_run : acquire_worker_slot after_first second_request ≡ returns (after_second, second_lease)
unfolding program
second_run = refl

third_refused :
    acquire_worker_slot after_second (request "/w/c" (noon + second)) ≡ raises no_free_slot
unfolding program
third_refused = refl

-- The first worker leaves, and its slot is granted again.
abbrev after_release : LeaseStore
after_release = record after_first {
  updated_at = noon + 2 * second;
  leases = delete basic_agent_1 after_first.leases;
}

release_run :
    release_worker_slot after_first first_lease (noon + 2 * second) ≡ returns after_release
unfolding program
release_run = refl

abbrev later_request : AcquireRequest
later_request = request "/w/c" (noon + 3 * second)

abbrev later_lease : WorkerSlotLease
later_lease = new_lease later_request basic_agent_1 2 (draw 0)

abbrev after_later : LeaseStore
after_later = (granted after_release later_request (draw 0) basic_agent_1).0

later_run : acquire_worker_slot after_release later_request ≡ returns (after_later, later_lease)
unfolding program
later_run = refl

abbrev renewal : ℕ
renewal = noon + 5 * second

abbrev after_renewal : LeaseStore
after_renewal = record after_first {
  updated_at = renewal;
  leases = assign basic_agent_1 (renewed first_lease renewal) after_first.leases;
}

renew_run :
    renew_worker_slot after_first first_lease renewal
    ≡ returns (after_renewal, renewed first_lease renewal)
unfolding program
renew_run = refl

expired_run : renew_worker_slot after_first first_lease (noon + 60 * second) ≡ raises lease_expired
unfolding program
expired_run = refl

empty_valid : validate_worker_slot_store canonical_empty_store ≡ []
unfolding program
empty_valid = refl

acquire-unrefused_example :
    acquire_worker_slot canonical_empty_store (request "/w/a" noon)
    ≢ raises (write_refused (pair_duplicated basic_agent_1 ∷ []))
acquire-unrefused_example =
    acquire-unrefused canonical_empty_store (request "/w/a" noon)
      (pair_duplicated basic_agent_1 ∷ [])

first_found : find basic_agent_1 after_first.leases ≡ some first_lease
unfolding program
first_found = refl

renew-unrefused_example :
    renew_worker_slot after_first first_lease renewal
    ≢ raises (write_refused (pair_duplicated basic_agent_1 ∷ []))
renew-unrefused_example =
    renew-unrefused after_first first_lease first_lease renewal (pair_duplicated basic_agent_1 ∷ [])
      first_found refl

superseded-Refused_example : Refused after_later first_lease
superseded-Refused_example =
    superseded-Refused canonical_empty_store after_first after_release after_later after_later
      (request "/w/a" noon) later_request first_lease later_lease first_run
      (next here (releases first_lease (noon + 2 * second) release_run)) later_run refl here

acquire-fence_example :
    hold_worker_slot_fence after_first first_lease (noon + 59 * second) ≡ returns tt
acquire-fence_example =
    acquire-fence canonical_empty_store (request "/w/a" noon) after_first first_lease
      (noon + 59 * second) first_run (omega arith) (omega arith)

release-not_held_example :
    (release_worker_slot after_release first_lease (noon + 4 * second) ≡ raises slot_not_held)
    × (renew_worker_slot after_release first_lease (noon + 4 * second) ≡ raises slot_not_held)
    × (hold_worker_slot_fence after_release first_lease (noon + 4 * second) ≡ raises slot_not_held)
release-not_held_example =
    release-not_held after_first first_lease (noon + 2 * second) after_release (noon + 4 * second)
      release_run (omega arith)

fence_run : hold_worker_slot_fence after_first first_lease (noon + second) ≡ returns tt
unfolding program
fence_run = refl

holder_ok : validate_holder_id "DSP-1" ≡ returns tt
unfolding program
holder_ok = refl

instance_ok : validate_holder_id "worker-a" ≡ returns tt
unfolding program
instance_ok = refl

fence-exclusive_example :
    acquire_worker_slot after_first (request "/w/a" (noon + second)) ≡ raises duplicate_pair
fence-exclusive_example =
    fence-exclusive after_first first_lease first_lease (request "/w/a" (noon + second)) fence_run
      first_found refl refl holder_ok instance_ok

second_IsSound : IsSound after_first second_request (draw 1)
unfolding program
second_IsSound = record {
  valid = refl;
  monotonic = refl;
  dispatch = refl;
  holder = refl;
  worktree = refl;
  drawn = refl;
  not_blank = refl;
  shaped = refl;
}

acquire-eq_outcome_example :
    acquire_worker_slot after_first second_request
    ≡ outcome after_first second_request
        (draw 1)
        (holds_pair basic_agent "/w/b" (live (noon + second) after_first.leases))
        (lowest_free basic_agent (live (noon + second) after_first.leases))
acquire-eq_outcome_example = acquire-eq_outcome after_first second_request (draw 1) second_IsSound

abbrev foreign : WorkerSlotLease
foreign = record first_lease { canonical_worktree = "/w/b" }

-- The copy names the worktree of the second slot's lease.
foreign_run :
    renew_worker_slot after_second foreign renewal
    ≡ raises (write_refused (pair_duplicated basic_agent_2 ∷ []))
unfolding program
foreign_run = refl

-- The copy names a worktree that no lease has.
abbrev moved : WorkerSlotLease
moved = record first_lease { canonical_worktree = "/w/z" }

abbrev after_moved : LeaseStore
after_moved = record after_second {
  updated_at = renewal;
  leases = assign basic_agent_1 (renewed moved renewal) after_second.leases;
}

moved_run :
    renew_worker_slot after_second moved renewal ≡ returns (after_moved, renewed moved renewal)
unfolding program
moved_run = refl

moved_stored : find basic_agent_1 after_moved.leases ≡ some (renewed moved renewal)
moved_stored =
    (renew-overwrites after_second moved renewal after_moved (renewed moved renewal) moved_run).2

second_found : find basic_agent_2 after_second.leases ≡ some second_lease
unfolding program
second_found = refl

renew_foreign-refused_example :
    renew_worker_slot after_second foreign renewal ≢ returns (after_second, first_lease)
renew_foreign-refused_example =
    renew_foreign-refused after_second foreign second_lease basic_agent_2 renewal
      (after_second, first_lease) second_found (λ e. cc) refl refl

validate_example :
    (validate_worker_slot_store canonical_empty_store ≡ []) ↔ IsWellFormed canonical_empty_store
validate_example = validate-nil-iff_IsWellFormed canonical_empty_store
