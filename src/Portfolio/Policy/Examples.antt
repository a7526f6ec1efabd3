-- ===== src/Portfolio/Policy/Examples.antt =====
-- Three queued entries, one of them blocked, and the theorems at what is selected.
use dockyard.Base.Text.{◌<>◌}
use dockyard.Base.Text
use dockyard.Base.Sort
use dockyard.Base.{
  ℕ, ◌≡◌, refl, ◌⊎◌, String, [], ◌∷◌, List, any, arith, some, none, returns, raises, true, Bool,
  false, keep, comparable_number, comparable_string, ℕ_discrete, String-discrete,
}
use dockyard.Base.Members.{In}
use dockyard.CoreTypes.{basic_agent, expert_agent, WorkerKind-discrete}
use dockyard.Portfolio.Entry.{
  QueueEntry, QueuePhase, ConflictKeyClass, ConflictKey, ScheduleReceipt, p0, p1, BusinessPriority,
  BusinessPriority-discrete, QueuePhase-discrete, ConflictKeyClass-discrete,
}
use dockyard.Portfolio.Policy.Keys.{priority_rank, aging_leb, order_key_leb, key_leb}
use dockyard.Portfolio.Policy.Selection.{receipt_of}
use dockyard.Portfolio.Policy.Eligible.{
  validate_snapshot-Distinct, eligible_entries-eq_keep, is_eligible,
}
use dockyard.Portfolio.Policy.SelectNext.{
  authorized_ids, Selected, select_next-Selected, select_next-returns, select_next-reason,
}
use dockyard.Portfolio.Policy.{
  AdmissionContext, schema_version, join_colon, deterministic_receipt_id, selection_reason_parts,
  duplicate_queue_identity, select_next, validate_snapshot, validate_from, validate_keys,
  validate_admission_context, has_active_hard_conflict, advisory_entry_keys, advisory_authorized,
  check_advisory_blocked, blocked_ids, unblocked_ids, without_hard_conflict, eligible_entries,
  build_receipt, completed_receipt, is_timestamp, fits_template, issue, choose, rank_of,
  enumerate_ids, band_ranks, compute_aging_ranks, order_key, with_keys, priority_value,
}

program : Unit {0}
unfolding select_next completed_receipt is_timestamp fits_template validate_snapshot validate_from
    validate_keys validate_admission_context has_active_hard_conflict advisory_entry_keys
    advisory_authorized check_advisory_blocked blocked_ids unblocked_ids without_hard_conflict
    eligible_entries build_receipt issue choose rank_of enumerate_ids band_ranks compute_aging_ranks
    order_key with_keys priority_rank aging_leb order_key_leb key_leb Sort.sort_by Sort.insert_by
    Sort.text_leb Sort.list_leb join_colon deterministic_receipt_id selection_reason_parts
    Text.drop_two Text.decimal Text.decimal_from BusinessPriority-discrete QueuePhase-discrete
    ConflictKeyClass-discrete WorkerKind-discrete ℕ_discrete String-discrete
program = tt

abbrev fold : String → String
fold s = s

abbrev digest : ScheduleReceipt → String
digest r = "sha256:d"

abbrev parses : String → Bool
parses s = true

abbrev entry : String → ℕ → String → BusinessPriority → List ConflictKey → QueueEntry
entry id sequence since priority keys = record {
  schema_version = schema_version;
  queue_id = id;
  task_id = "TASK-1";
  revision = 1;
  enqueue_sequence = sequence;
  enqueued_at = since;
  business_priority = priority;
  aging_basis_at = since;
  worker_kind_request = basic_agent;
  assessment_id = "ASM-1";
  state = QueuePhase.queued;
  conflict_keys = keys;
  retry_budget_used = 0;
  content_digest = "sha256:e";
  selection_generation = 1;
}

abbrev locked : ConflictKey
locked = record { value = "db"; classification = ConflictKeyClass.hard_exclusive; canonical = true }

-- The urgent entry waits for the database; of the others, b is older.
abbrev urgent : QueueEntry
urgent = entry "Q-a" 1 "2026-01-01" p0 (locked ∷ [])

abbrev younger : QueueEntry
younger = entry "Q-c" 2 "2026-01-03" p1 []

abbrev older : QueueEntry
older = entry "Q-b" 3 "2026-01-02" p1 []

abbrev snapshot : List QueueEntry
snapshot = urgent ∷ younger ∷ older ∷ []

abbrev context : AdmissionContext
context = record {
  policy_version = schema_version;
  evaluated_at = "2026-01-04T00:00:00.000000Z";
  active_hard_conflict_keys = "db" ∷ [];
  advisory_conflict_keys = [];
  advisory_authorizations = [];
  available_worker_kinds = basic_agent ∷ [];
  max_selections = 1;
}

abbrev issued : ScheduleReceipt
issued =
    receipt_of fold digest parses context (authorized_ids fold digest parses context snapshot) older

snapshot_valid : validate_snapshot fold snapshot ≡ returns tt
unfolding program
snapshot_valid = refl

context_valid : validate_admission_context fold context ≡ returns tt
unfolding program
context_valid = refl

dated_at : is_timestamp parses context.evaluated_at ≡ true
unfolding program
dated_at = refl

select_run : select_next fold digest parses snapshot context ≡ returns (some issued)
unfolding program
select_run = refl

issued_id : issued.receipt_id ≡ "SR-b-3-g1"
unfolding program
issued_id = refl

issued_reason : issued.selection_reason ≡ "priority_P1:oldest_in_band:advisory_authorized:fifo"
unfolding program
issued_reason = refl

duplicate_run : validate_snapshot fold (older ∷ older ∷ []) ≡ raises duplicate_queue_identity
unfolding program
duplicate_run = refl

nobody_run :
    select_next fold digest parses snapshot
      (record context { available_worker_kinds = expert_agent ∷ [] })
    ≡ returns none
unfolding program
nobody_run = refl

select_next-Selected_example : Selected fold digest parses context snapshot issued
select_next-Selected_example =
    select_next-Selected fold digest parses snapshot context issued (omega arith) select_run

select_next-returns_example :
    ((any (is_eligible fold context) snapshot ≡ false)
      × (select_next fold digest parses snapshot context ≡ returns none))
    ⊎ ((r : ScheduleReceipt) × (select_next fold digest parses snapshot context ≡ returns (some r))
        × Selected fold digest parses context snapshot r)
select_next-returns_example =
    select_next-returns fold digest parses snapshot context (omega arith) snapshot_valid
      context_valid dated_at

eligible_entries-eq_keep_example :
    eligible_entries fold context snapshot ≡ keep (is_eligible fold context) snapshot
eligible_entries-eq_keep_example =
    eligible_entries-eq_keep fold context snapshot
      (validate_snapshot-Distinct fold snapshot snapshot_valid)

select_next-reason_example :
    (e : QueueEntry) × In e snapshot
    × (issued.queue_id ≡ e.queue_id)
    × (issued.selection_reason
        ≡ join_colon (
            ("priority_" <> priority_value e.business_priority)
            ∷ "oldest_in_band"
            ∷ "advisory_authorized"
            ∷ "fifo"
            ∷ []))
select_next-reason_example =
    select_next-reason fold digest parses snapshot context issued (omega arith) select_run
