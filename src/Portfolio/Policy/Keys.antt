-- ===== src/Portfolio/Policy/Keys.antt =====
-- The orders by which `_compute_aging_ranks` and `select_next` sort
-- (skills/agentdesk/scripts/portfolio_scheduler_policy.py).
use dockyard.Base.{
  ℕ, ◌≡◌, ◌==◌, comparable_string, Bool, true, false, if◌then◌else◌, ltb, leb, arith, ◌⊎◌, ◌<◌, ◌≤◌,
}
use dockyard.Base.Sort.{text_leb, text_leb-IsOrder, text_leb_antisymm, IsOrder}
use dockyard.Portfolio.Entry.{BusinessPriority, p0, p1, p2, p3, QueueEntry, OrderKey}

-- `_PRIORITY_RANK`
unfoldable pub priority_rank : BusinessPriority → ℕ
priority_rank p0 = 0
priority_rank p1 = 1
priority_rank p2 = 2
priority_rank p3 = 3

-- The order of `(e.aging_basis_at, e.enqueue_sequence)`: the first difference decides.
unfoldable pub aging_leb : QueueEntry → QueueEntry → Bool
aging_leb a b =
    if a.aging_basis_at == b.aging_basis_at
    then leb a.enqueue_sequence b.enqueue_sequence
    else text_leb a.aging_basis_at b.aging_basis_at

-- The order of the four-part keys.
unfoldable pub order_key_leb : OrderKey → OrderKey → Bool
order_key_leb a b =
    if ltb a.priority_rank b.priority_rank
    then true
    else (if ltb b.priority_rank a.priority_rank
        then false
        else (if ltb a.aging_rank b.aging_rank
            then true
            else (if ltb b.aging_rank a.aging_rank
                then false
                else (if ltb a.sequence b.sequence
                    then true
                    else (if ltb b.sequence a.sequence
                        then false
                        else text_leb a.key_queue_id b.key_queue_id)))))

unfoldable pub key_leb : OrderKey × QueueEntry → OrderKey × QueueEntry → Bool
unfolding order_key_leb
key_leb a b = order_key_leb a.0 b.0

aging_total : (a b : QueueEntry) → (aging_leb a b ≡ true) ⊎ (aging_leb b a ≡ true)
unfolding aging_leb
aging_total a b = ground (arith, text_leb-IsOrder.total a.aging_basis_at b.aging_basis_at)

aging_trans :
    (a b c : QueueEntry) → aging_leb a b ≡ true → aging_leb b c ≡ true → aging_leb a c ≡ true
unfolding aging_leb
aging_trans a b c h k = ground (
  arith,
  text_leb-IsOrder.trans a.aging_basis_at b.aging_basis_at c.aging_basis_at,
  text_leb_antisymm a.aging_basis_at b.aging_basis_at,
)

pub aging_leb-IsOrder : IsOrder aging_leb
aging_leb-IsOrder = record { total = aging_total; trans = aging_trans }

key_total : (a b : OrderKey × QueueEntry) → (key_leb a b ≡ true) ⊎ (key_leb b a ≡ true)
unfolding key_leb
key_total a b = ground (arith, text_leb-IsOrder.total a.0.key_queue_id b.0.key_queue_id)

key_trans :
    (a b c : OrderKey × QueueEntry) → key_leb a b ≡ true → key_leb b c ≡ true → key_leb a c ≡ true
unfolding key_leb
key_trans a b c h k =
    ground (arith, text_leb-IsOrder.trans a.0.key_queue_id b.0.key_queue_id c.0.key_queue_id)

pub key_leb-IsOrder : IsOrder key_leb
key_leb-IsOrder = record { total = key_total; trans = key_trans }

-- What a smaller key says of the first two parts.
pub key_leb_parts :
    (a b : OrderKey × QueueEntry)
    → key_leb a b ≡ true
    → (a.0.priority_rank < b.0.priority_rank)
      ⊎ ((a.0.priority_rank ≡ b.0.priority_rank) × (a.0.aging_rank ≤ b.0.aging_rank))
unfolding key_leb
key_leb_parts a b h = ground arith
