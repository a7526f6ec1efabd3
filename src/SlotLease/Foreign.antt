-- ===== src/SlotLease/Foreign.antt =====
-- What a renewal with a copy of the lease that names another worktree comes to.
use dockyard.Base.{ℕ, ◌≡◌, ◌≢◌, ap, ◌∙◌, returns, some, [], ◌∷◌, arith}
use dockyard.SlotLease.Store.{Slot, comparable_slot, WorkerSlotLease, Leases, LeaseStore, find}
use dockyard.SlotLease.WellFormed.{Apart, AllApart, validate-nil-iff_IsWellFormed}
use dockyard.SlotLease.Lifecycle.{renew_worker_slot}
use dockyard.SlotLease.Outcomes.{renew-Held, renew-written}
use dockyard.SlotLease.Preserves.{find-All}
use dockyard.SlotLease.Tenure.{find-assign}
use dockyard.SlotLease.Capacity.{find-assign_ne}

-- A renewal stores the worktree and the time of acquisition of the caller's copy, whatever the
-- stored lease had: the identity check compares neither.
pub renew-overwrites :
    (d : LeaseStore) (lease : WorkerSlotLease) (now : ℕ) (d' : LeaseStore) (new : WorkerSlotLease)
    → renew_worker_slot d lease now ≡ returns (d', new)
    → (new.canonical_worktree ≡ lease.canonical_worktree)
      × (new.acquired_at ≡ lease.acquired_at)
      × (find lease.slot_id d'.leases ≡ some new)
renew-overwrites d lease now d' new h =
    let (stored, held, started, unexpired, built, e, e') = renew-Held d lease now d' new h in
    (
      ap (λ x. x.canonical_worktree) e,
      ap (λ x. x.acquired_at) e,
      rw e' (find-assign lease.slot_id new d.leases),
    )

-- Two slots of a well-formed document never share a pair.
pairs_differ :
    (s t : Slot) (a b : WorkerSlotLease) (ls : Leases)
    → AllApart ls
    → find s ls ≡ some a
    → find t ls ≡ some b
    → s ≢ t
    → a.worker_kind ≡ b.worker_kind
    → a.canonical_worktree ≢ b.canonical_worktree
unfolding find
pairs_differ s t a b [] w f g n k c = cc
pairs_differ s t a b ((u, l) ∷ ls) w f g n k c =
    ground (arith, pairs_differ s t a b ls, find-All (Apart l) s a ls, find-All (Apart l) t b ls)

-- A renewal whose copy of the lease names the worktree of another slot's lease of the same kind
-- never returns.
pub renew_foreign-refused :
    (d : LeaseStore) (lease m : WorkerSlotLease) (t : Slot) (now : ℕ)
    (x : LeaseStore × WorkerSlotLease)
    → find t d.leases ≡ some m
    → lease.slot_id ≢ t
    → lease.worker_kind ≡ m.worker_kind
    → lease.canonical_worktree ≡ m.canonical_worktree
    → renew_worker_slot d lease now ≢ returns x
renew_foreign-refused d lease m t now (d', new) f n k c h =
    let (stored, held, started, unexpired, built, e, e') = renew-Held d lease now d' new h in
    let w = (validate-nil-iff_IsWellFormed d').0 (renew-written d lease now d' new h).1 in
    pairs_differ lease.slot_id t new m d'.leases w.apart
      (rw e' (find-assign lease.slot_id new d.leases))
      (rw e' (find-assign_ne t lease.slot_id new d.leases n ∙ f)) n (rw e k) (rw e c)
