-- ===== src/Portfolio/Policy.antt =====
-- skills/agentdesk/scripts/portfolio_scheduler_policy.py: the deterministic selection of the next
-- queue entry. `str.casefold`,
-- `datetime.fromisoformat` and the digest of a receipt are arguments.
pub mod Keys
pub mod Ranks
pub mod Selection
pub mod Eligible
pub mod SelectNext
mod Examples
mod Filters
unfoldable pub use Filters.*
use dockyard.Base.Sort
use dockyard.Base.Text
use dockyard.Base.Text.{◌<>◌}
use dockyard.Base.{
  leb, ℕ, zero, suc, ◌+◌, ◌==◌, comparable_string, comparable_number, String, Bool, true, false,
  not, ◌&&◌, ◌||◌, List, [], ◌∷◌, ◌++◌, map, Option, none, some, if◌then◌else◌, any, keep, take,
  Attempt, returns, raises, ◌>>=◌, ◌>>◌, require, or_raise,
}
use dockyard.CoreTypes.{WorkerKind, comparable_kind}
use dockyard.Portfolio.Entry.{
  QueuePhase, ConflictKeyClass, ConflictKey, QueueEntry, OrderKey, ScheduleReceipt, ReceiptPhase,
  BusinessPriority, p0, p1, p2, p3, comparable_phase, comparable_class, comparable_priority,
}
use Keys.{priority_rank, aging_leb, key_leb}

-- `aging_ranks[queue_id]` and the position in an enumerated band.
unfoldable pub rank_of : String → List (String × ℕ) → Option ℕ
rank_of q [] = none
rank_of q ((p, n) ∷ rs) = if p == q then some n else rank_of q rs

-- `enumerate(sorted_entries)`
unfoldable pub enumerate_ids : ℕ → List QueueEntry → List (String × ℕ)
enumerate_ids n [] = []
enumerate_ids n (e ∷ es) = (e.queue_id, n) ∷ enumerate_ids (suc n) es

-- The ranks within one priority band.
unfoldable pub band_ranks : BusinessPriority → List QueueEntry → List (String × ℕ)
unfolding enumerate_ids
band_ranks p es = enumerate_ids 0 (Sort.sort_by aging_leb (keep (λ e. e.business_priority == p) es))

-- `_compute_aging_ranks`. Queue ids are distinct here, so the order of the bands does not matter.
unfoldable pub compute_aging_ranks : List QueueEntry → List (String × ℕ)
unfolding band_ranks
compute_aging_ranks es =
    band_ranks p0 es ++ (band_ranks p1 es ++ (band_ranks p2 es ++ band_ranks p3 es))

unfoldable pub order_key : QueueEntry → ℕ → OrderKey
order_key e aging_rank = record {
  priority_rank = priority_rank e.business_priority;
  aging_rank = aging_rank;
  sequence = e.enqueue_sequence;
  key_queue_id = e.queue_id;
}

-- `list.sort(key=sort_key)` first computes the key of each entry.
unfoldable pub with_keys :
    List (String × ℕ) → List QueueEntry → Attempt PolicyError (List (OrderKey × QueueEntry))
with_keys ranks [] = returns []
with_keys ranks (e ∷ es) = do
  rank ← or_raise (rank_of e.queue_id ranks) key_error
  rest ← with_keys ranks es
  returns ((order_key e rank, e) ∷ rest)

abbrev pub priority_value : BusinessPriority → String
priority_value p0 = "P0"
priority_value p1 = "P1"
priority_value p2 = "P2"
priority_value p3 = "P3"

-- The parts that `_build_selection_reason` joins by colons.
unfoldable pub selection_reason_parts : QueueEntry → ℕ → Bool → List String
selection_reason_parts e aging_rank authorized =
    (("priority_" <> priority_value e.business_priority) ∷ [])
    ++ ((if aging_rank == 0 then "oldest_in_band" ∷ [] else [])
        ++ ((if authorized then "advisory_authorized" ∷ [] else []) ++ ("fifo" ∷ [])))

-- `_deterministic_receipt_id`
unfoldable pub deterministic_receipt_id : QueueEntry → String
deterministic_receipt_id e =
    "SR-"
    <> (Text.drop_two e.queue_id
        <> ("-"
            <> (Text.decimal e.enqueue_sequence <> ("-g" <> Text.decimal e.selection_generation))))

-- `":".join(parts)`
unfoldable pub join_colon : List String → String
join_colon [] = ""
join_colon (p ∷ []) = p
join_colon (p ∷ q ∷ ps) = p <> (":" <> join_colon (q ∷ ps))

abbrev pub head_of : {A : Type 0} → List A → Option A
head_of [] = none
head_of (x ∷ xs) = some x

module _ (casefold : String → String) (digest : ScheduleReceipt → String)
    (parses : String → Bool) where
  abbrev provisional_digest : String
  provisional_digest = "sha256:0000000000000000000000000000000000000000000000000000000000000000"

  -- The receipt that `_build_receipt` constructs twice, the second time with its digest.
  unfoldable pub completed_receipt : QueueEntry → OrderKey → String → String → ScheduleReceipt
  completed_receipt e key evaluated_at reason =
      let provisional : ScheduleReceipt = record {
        schema_version = schema_version;
        receipt_id = deterministic_receipt_id e;
        queue_id = e.queue_id;
        task_id = e.task_id;
        revision = e.revision;
        enqueue_sequence = e.enqueue_sequence;
        selected_at = evaluated_at;
        order_key = key;
        selection_reason = reason;
        worker_kind = e.worker_kind_request;
        dispatch_event_id = none;
        phase = ReceiptPhase.selected;
        content_digest = provisional_digest;
        selection_generation = e.selection_generation;
      } in
      record provisional { content_digest = digest provisional }

  -- `_build_receipt`. Of the checks of a receipt's constructor, that of `selected_at` can fail; the
  -- other fields are those of a constructed entry.
  unfoldable pub build_receipt :
      QueueEntry → OrderKey → String → String → Attempt PolicyError ScheduleReceipt
  unfolding completed_receipt
  build_receipt e key evaluated_at reason = do
    require (is_timestamp parses evaluated_at) selected_at_invalid
    returns (completed_receipt e key evaluated_at reason)

  -- Steps 9 and 10 of `select_next`, for the first of the sorted entries.
  unfoldable pub issue :
      AdmissionContext
      → List String
      → List (String × ℕ)
      → Option (OrderKey × QueueEntry)
      → Attempt PolicyError (Option ScheduleReceipt)
  unfolding order_key selection_reason_parts build_receipt deterministic_receipt_id join_colon
  issue c authorized ranks none = returns none
  issue c authorized ranks (some (key, chosen)) = do
    rank ← or_raise (rank_of chosen.queue_id ranks) key_error
    let reason =
        join_colon (selection_reason_parts chosen rank (mem_text chosen.queue_id authorized))
    receipt ← build_receipt chosen (order_key chosen rank) c.evaluated_at reason
    returns (some receipt)

  -- Steps 7 to 10 of `select_next`; an empty list gives none.
  unfoldable pub choose :
      AdmissionContext
      → List String
      → List QueueEntry
      → Attempt PolicyError (Option ScheduleReceipt)
  unfolding compute_aging_ranks with_keys issue
  choose c authorized es = do
    let ranks = compute_aging_ranks es
    keyed ← with_keys ranks es
    issue c authorized ranks (head_of (take c.max_selections (Sort.sort_by key_leb keyed)))

  -- `select_next`. Its early returns of None at an empty list are that of `choose`: a list that is
  -- empty at one step stays empty.
  unfoldable pub select_next :
      List QueueEntry → AdmissionContext → Attempt PolicyError (Option ScheduleReceipt)
  unfolding validate_snapshot validate_admission_context eligible_entries unblocked_ids choose
  select_next es c = do
    validate_snapshot casefold es
    validate_admission_context casefold c
    choose c (unblocked_ids casefold c (without_hard_conflict casefold c es))
        (eligible_entries casefold c es)
