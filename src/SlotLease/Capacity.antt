-- ===== src/SlotLease/Capacity.antt =====
-- When `acquire_worker_slot` (skills/agentdesk/scripts/worker_slot_lease.py) grants a lease, and
-- what it leaves alone.
use dockyard.Base.{
  ℕ, ◌+◌, ◌≡◌, refl, ◌≢◌, ◌<◌, comparable_string, if◌then◌else◌, String, Bool, true, false, [], ◌∷◌,
  Option, none, some, arith, Attempt, returns, raises, map, subst, ◌∙◌, Bool-cases, Option-cases,
  inl, inr,
}
use dockyard.CoreTypes
use dockyard.CoreTypes.{WorkerKind, comparable_kind}
use dockyard.SlotLease.Store.{
  Slot, comparable_slot, slot_kind, WorkerSlotLease, Leases, LeaseStore, find, has, assign,
  set_epoch, dt_to_utc,
}
use dockyard.SlotLease.Validate.{validate_worker_slot_store}
use dockyard.SlotLease.Lifecycle.{
  LeaseError, no_free_slot, duplicate_pair, AcquireRequest, new_lease, live, holds_pair,
  candidate_slots, first_of_list, generate_unique_lease_id, validate_holder_id, validate_worktree,
  is_lease_id, construct, check_now_monotonic, acquire_worker_slot,
}
use dockyard.SlotLease.Outcomes.{Grant, acquire-Grant, write_valid}
use dockyard.SlotLease.Validity.{Grant-valid}
use dockyard.SlotLease.Preserves.{candidate_lem}
use dockyard.Base.Text
use dockyard.SlotLease.Tenure.{read_valid}

find-live :
    (now : ℕ) (s : Slot) (m : WorkerSlotLease) (ls : Leases)
    → find s ls ≡ some m
    → now < m.expires_at
    → find s (live now ls) ≡ some m
unfolding find live
find-live now s m [] h k = cc
find-live now s m ((t, l) ∷ ls) h k = ground (arith, find-live now s m ls)

find-has : (s : Slot) (m : WorkerSlotLease) (ls : Leases) → find s ls ≡ some m → has s ls ≡ true
unfolding find has
find-has s m [] h = cc
find-has s m ((t, l) ∷ ls) h = ground (arith, find-has s m ls)

pub find-assign_ne :
    (s u : Slot) (m : WorkerSlotLease) (ls : Leases) → u ≢ s → find s (assign u m ls) ≡ find s ls
unfolding find assign
find-assign_ne s u m [] n = ground arith
find-assign_ne s u m ((t, l) ∷ ls) n = ground (arith, find-assign_ne s u m ls)

-- An acquisition leaves every lease that is unexpired at its instant stored unchanged under its
-- slot.
pub acquire-keeps_live :
    (d : LeaseStore) (r : AcquireRequest) (d' : LeaseStore) (l m : WorkerSlotLease) (s : Slot)
    → acquire_worker_slot d r ≡ returns (d', l)
    → find s d.leases ≡ some m
    → r.now < m.expires_at
    → find s d'.leases ≡ some m
acquire-keeps_live d r d' l m s h f k =
    let g = acquire-Grant d r d' l h in
    let c = candidate_lem r.worker_kind _ l.slot_id g.chosen in
    let still = find-live r.now s m d.leases f k in
    let other : l.slot_id ≢ s =
      λ e. cc (find-has s m _ still, subst (λ x. has x (live r.now d.leases) ≡ false) e c.1) in
    rw (g.written, find-assign_ne s l.slot_id l (live r.now d.leases) other) still

-- The two slots of a kind.
abbrev first_slot : WorkerKind → Slot
first_slot WorkerKind.basic_agent = Slot.basic_agent_1
first_slot WorkerKind.standard_agent = Slot.standard_agent_1
first_slot WorkerKind.advanced_agent = Slot.advanced_agent_1
first_slot WorkerKind.expert_agent = Slot.expert_agent_1

abbrev second_slot : WorkerKind → Slot
second_slot WorkerKind.basic_agent = Slot.basic_agent_2
second_slot WorkerKind.standard_agent = Slot.standard_agent_2
second_slot WorkerKind.advanced_agent = Slot.advanced_agent_2
second_slot WorkerKind.expert_agent = Slot.expert_agent_2

-- The slot for a kind: the first if it is free, else the second if that is free.
abbrev pub lowest_free : WorkerKind → Leases → Option Slot
lowest_free k ls =
    if has (first_slot k) ls
    then (if has (second_slot k) ls then none else some (second_slot k))
    else some (first_slot k)

candidates-eq_lowest :
    (k : WorkerKind) (ls : Leases) → first_of_list (candidate_slots k ls) ≡ lowest_free k ls
unfolding candidate_slots slot_kind CoreTypes.WorkerKind-discrete
candidates-eq_lowest WorkerKind.basic_agent ls = ground arith
candidates-eq_lowest WorkerKind.standard_agent ls = ground arith
candidates-eq_lowest WorkerKind.advanced_agent ls = ground arith
candidates-eq_lowest WorkerKind.expert_agent ls = ground arith

-- A request that passes the checks of its own fields, and the id that is drawn for it.
pub record IsSound (d : LeaseStore) (r : AcquireRequest) (id : String) : Type 0 where
  pub valid : validate_worker_slot_store d ≡ []
  pub monotonic : check_now_monotonic r.now d.updated_at ≡ returns tt
  pub dispatch : validate_holder_id r.holder_dispatch_id ≡ returns tt
  pub holder : validate_holder_id r.holder_instance_id ≡ returns tt
  pub worktree : validate_worktree r.canonical ≡ returns tt
  pub drawn : generate_unique_lease_id r.draws (map (λ e. e.1.lease_id) d.leases) ≡ returns id
  pub not_blank : Text.is_blank id ≡ false
  pub shaped : is_lease_id id ≡ true

construct-new :
    (d : LeaseStore) (r : AcquireRequest) (id : String) (s : Slot) (n : ℕ)
    → IsSound d r id
    → slot_kind s ≡ r.worker_kind
    → construct (new_lease r s (n + 1) id) ≡ returns (new_lease r s (n + 1) id)
unfolding construct
construct-new d r id s n w k = ground arith

-- What is granted on slot `s`.
abbrev pub granted : LeaseStore → AcquireRequest → String → Slot → LeaseStore × WorkerSlotLease
granted d r id s =
    let lease = new_lease r s (d.slot_epochs s + 1) id in
    (
      record {
        updated_at = dt_to_utc r.now;
        slot_epochs = set_epoch s (d.slot_epochs s + 1) d.slot_epochs;
        leases = assign s lease (live r.now d.leases);
      },
      lease,
    )

granted-Grant :
    (d : LeaseStore) (r : AcquireRequest) (id : String) (s : Slot)
    → IsSound d r id
    → holds_pair r.worker_kind r.canonical (live r.now d.leases) ≡ false
    → first_of_list (candidate_slots r.worker_kind (live r.now d.leases)) ≡ some s
    → slot_kind s ≡ r.worker_kind
    → Grant d r (granted d r id s).0 (granted d r id s).1
granted-Grant d r id s w free chosen kind = record {
  valid = w.valid;
  monotonic = w.monotonic;
  pair_free = free;
  chosen = chosen;
  drawn = w.drawn;
  lease = refl;
  constructed = construct-new d r id s (d.slot_epochs s) w kind;
  time = refl;
  epochs = refl;
  written = refl;
}

abbrev pub outcome :
    LeaseStore
    → AcquireRequest
    → String
    → Bool
    → Option Slot
    → Attempt LeaseError (LeaseStore × WorkerSlotLease)
outcome d r id true free = raises duplicate_pair
outcome d r id false none = raises no_free_slot
outcome d r id false (some s) = returns (granted d r id s)

-- A sound request (valid document, clock not behind it, well-formed holder ids and worktree, a
-- fresh well-formed id drawn) is refused as a duplicate exactly when an unexpired lease holds its
-- kind and worktree, else refused for capacity exactly when both slots of its kind are held by
-- unexpired leases, and else is granted the lowest free slot under that slot's next epoch, in the
-- document with the expired leases dropped.
pub acquire-eq_outcome :
    (d : LeaseStore) (r : AcquireRequest) (id : String)
    → IsSound d r id
    → acquire_worker_slot d r
      ≡ outcome d r id
          (holds_pair r.worker_kind r.canonical (live r.now d.leases))
          (lowest_free r.worker_kind (live r.now d.leases))
unfolding acquire_worker_slot
acquire-eq_outcome d r id w =
    elim (Bool-cases (holds_pair r.worker_kind r.canonical (live r.now d.leases))) [
      | inl held ↦ rw (w.dispatch, w.holder, read_valid d w.valid, w.monotonic, held) refl
      | inr free ↦ elim (Option-cases (lowest_free r.worker_kind (live r.now d.leases))) [
        | inl full ↦
            let e = candidates-eq_lowest r.worker_kind (live r.now d.leases) ∙ full in
            rw (w.dispatch, w.holder, read_valid d w.valid, w.monotonic, free, full, e) refl
        | inr (s, low) ↦
            let e = candidates-eq_lowest r.worker_kind (live r.now d.leases) ∙ low in
            let c = candidate_lem r.worker_kind (live r.now d.leases) s e in
            let v =
              Grant-valid d r (granted d r id s).0 (granted d r id s).1
                (granted-Grant d r id s w free e c.0) in
            rw
              (
                w.dispatch,
                w.holder,
                read_valid d w.valid,
                w.monotonic,
                free,
                low,
                e,
                w.drawn,
                construct-new d r id s (d.slot_epochs s) w c.0,
                write_valid (granted d r id s).0 v,
              )
              refl
      ]
    ]
