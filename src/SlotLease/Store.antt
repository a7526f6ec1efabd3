-- ===== src/SlotLease/Store.antt =====
-- The document of `worker-slot-lease.yaml` and its dictionary operations
-- (skills/agentdesk/scripts/worker_slot_lease.py).
-- An instant is the number of microseconds since 0001-01-01T00:00:00Z, Python's first datetime.
use dockyard.Base.{
  ℕ, ◌*◌, ◌/◌, ◌==◌, Comparable, String, Bool, true, false, List, [], ◌∷◌, Option, none, some,
  if◌then◌else◌,
}
use dockyard.CoreTypes.{WorkerKind, basic_agent, standard_agent, advanced_agent, expert_agent}

-- `_STABLE_SLOT_IDS`
pub data Slot : Type 0 where
  basic_agent_1 basic_agent_2 standard_agent_1 standard_agent_2 : Slot
  advanced_agent_1 advanced_agent_2 expert_agent_1 expert_agent_2 : Slot

unfoldable pub Slot-discrete : Discrete Slot
Slot-discrete = hlevel

instance abbrev pub comparable_slot : Comparable Slot
comparable_slot = record { dec = Slot-discrete }

abbrev pub stable_slot_ids : List Slot
stable_slot_ids =
    basic_agent_1 ∷ basic_agent_2 ∷ standard_agent_1 ∷ standard_agent_2 ∷ advanced_agent_1
    ∷ advanced_agent_2 ∷ expert_agent_1 ∷ expert_agent_2 ∷ []

-- `_SLOT_KIND`
unfoldable pub slot_kind : Slot → WorkerKind
slot_kind basic_agent_1 = basic_agent
slot_kind basic_agent_2 = basic_agent
slot_kind standard_agent_1 = standard_agent
slot_kind standard_agent_2 = standard_agent
slot_kind advanced_agent_1 = advanced_agent
slot_kind advanced_agent_2 = advanced_agent
slot_kind expert_agent_1 = expert_agent
slot_kind expert_agent_2 = expert_agent

pub record WorkerSlotLease : Type 0 where
  pub lease_id : String
  pub lease_epoch : ℕ
  pub slot_id : Slot
  pub worker_kind : WorkerKind
  pub holder_dispatch_id : String
  pub holder_instance_id : String
  pub canonical_worktree : String
  pub acquired_at : ℕ
  pub heartbeat_at : ℕ
  pub expires_at : ℕ

-- The `leases` object: its keys in the order of insertion.
abbrev pub Leases : Type 0
Leases = List (Slot × WorkerSlotLease)

pub record LeaseStore : Type 0 where
  pub updated_at : ℕ
  pub slot_epochs : Slot → ℕ
  pub leases : Leases

abbrev pub second : ℕ
second = 1000000

-- `_dt_to_utc_str`: the written time has no fraction of a second.
abbrev pub dt_to_utc : ℕ → ℕ
dt_to_utc t = t / second * second

-- `_CANONICAL_SENTINEL_UPDATED_AT`, 1970-01-01T00:00:00Z.
abbrev pub sentinel : ℕ
sentinel = 62135596800 * second

abbrev pub lease_ttl : ℕ
lease_ttl = 60 * second

unfoldable pub canonical_empty_store : LeaseStore
canonical_empty_store = record { updated_at = sentinel; slot_epochs = λ s. 0; leases = [] }

-- `leases.get(slot)`
unfoldable pub find : Slot → Leases → Option WorkerSlotLease
find s [] = none
find s ((t, l) ∷ ls) = if t == s then some l else find s ls

-- `slot in leases`
unfoldable pub has : Slot → Leases → Bool
has s [] = false
has s ((t, l) ∷ ls) = if t == s then true else has s ls

-- `del leases[slot]`
unfoldable pub delete : Slot → Leases → Leases
delete s [] = []
delete s ((t, l) ∷ ls) = if t == s then delete s ls else (t, l) ∷ delete s ls

-- `leases[slot] = lease`: in place if the key is there, else at the end.
unfoldable pub assign : Slot → WorkerSlotLease → Leases → Leases
assign s l [] = (s, l) ∷ []
assign s l ((t, m) ∷ ls) = if t == s then (s, l) ∷ ls else (t, m) ∷ assign s l ls

unfoldable pub set_epoch : Slot → ℕ → (Slot → ℕ) → Slot → ℕ
set_epoch s n f t = if t == s then n else f t
