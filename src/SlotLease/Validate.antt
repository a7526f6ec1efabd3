-- ===== src/SlotLease/Validate.antt =====
-- `validate_worker_slot_store` (skills/agentdesk/scripts/worker_slot_lease.py), on a document whose
-- keys and field types are right.
use dockyard.Base.{
  ℕ, ◌==◌, comparable_string, comparable_number, String, Bool, true, false, not, ◌&&◌, List, [],
  ◌∷◌, ◌++◌, if◌then◌else◌, any, leb, ltb,
}
use dockyard.CoreTypes.{WorkerKind, comparable_kind}
use dockyard.SlotLease.Store.{Slot, comparable_slot, slot_kind, WorkerSlotLease, Leases, LeaseStore}

-- The messages that `validate_worker_slot_store` gives of a lease, with its slot.
pub data Violation : Type 0 where
  slot_mismatch lease_id_duplicated kind_mismatch epoch_mismatch : Slot → Violation
  acquired_after_heartbeat heartbeat_not_before_expiry pair_duplicated : Slot → Violation

abbrev pub report : Bool → Violation → List Violation
report true v = v ∷ []
report false v = []

-- `lease_id in seen_lease_ids`: the empty text is neither looked up nor noted.
unfoldable pub seen_id : String → List String → Bool
seen_id i seen = if i == "" then false else any (λ j. j == i) seen

unfoldable pub note_id : String → List String → List String
note_id i seen = if i == "" then seen else i ∷ seen

unfoldable pub seen_pair : WorkerKind → String → List (WorkerKind × String) → Bool
seen_pair k w seen = any (λ p. p.0 == k && p.1 == w) seen

-- The checks of one entry, in the order of the loop's body.
unfoldable pub check_lease :
    (Slot → ℕ) → List String → List (WorkerKind × String) → Slot → WorkerSlotLease → List Violation
check_lease epochs ids pairs s l =
    report (not (l.slot_id == s)) (slot_mismatch s)
    ++ report (seen_id l.lease_id ids) (lease_id_duplicated s)
    ++ report (not (l.worker_kind == slot_kind s)) (kind_mismatch s)
    ++ report (not (l.lease_epoch == epochs s)) (epoch_mismatch s)
    ++ report (ltb l.heartbeat_at l.acquired_at) (acquired_after_heartbeat s)
    ++ report (leb l.expires_at l.heartbeat_at) (heartbeat_not_before_expiry s)
    ++ report (seen_pair l.worker_kind l.canonical_worktree pairs) (pair_duplicated s)

unfoldable pub check_leases :
    (Slot → ℕ) → List String → List (WorkerKind × String) → Leases → List Violation
unfolding check_lease note_id
check_leases epochs ids pairs [] = []
check_leases epochs ids pairs ((s, l) ∷ ls) =
    check_lease epochs ids pairs s l
    ++ check_leases epochs (note_id l.lease_id ids) ((l.worker_kind, l.canonical_worktree) ∷ pairs)
        ls

unfoldable pub validate_worker_slot_store : LeaseStore → List Violation
unfolding check_leases
validate_worker_slot_store d = check_leases d.slot_epochs [] [] d.leases
