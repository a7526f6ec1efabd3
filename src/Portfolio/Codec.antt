-- ===== src/Portfolio/Codec.antt =====
-- The canonical lines of a document of skills/agentdesk/scripts/portfolio_scheduler_store.py. A
-- line is the list of its code points, a document the list of its lines.
pub mod Reader
pub mod RoundTrip
pub mod Printed
mod Examples
use dockyard.Base.Text
use dockyard.Base.{
  ℕ, zero, suc, ◌+◌, ◌/◌, ◌%◌, leb, ◌==◌, comparable_number, String, Bool, true, false, ◌&&◌, List,
  [], ◌∷◌, ◌++◌, Option, none, some, if◌then◌else◌,
}
use dockyard.CoreTypes.{WorkerKind, basic_agent, standard_agent, advanced_agent, expert_agent}
use dockyard.Portfolio.Entry.{
  BusinessPriority, p0, p1, p2, p3, QueuePhase, ReceiptPhase, ConflictKeyClass, ConflictKey,
  QueueEntry, ScheduleReceipt,
}

abbrev pub Line : Type 0
Line = List ℕ

abbrev pub text : String → Line
text s = Text.codes s

-- `value.replace("\\", "\\\\").replace('"', '\\"')`: 92 is the backslash, 34 the quotation mark.
unfoldable pub escape : Line → Line
escape [] = []
escape (c ∷ cs) =
    let rest = escape cs in
    if c == 92 then 92 ∷ 92 ∷ rest else (if c == 34 then 92 ∷ 34 ∷ rest else c ∷ rest)

-- `_quote`
unfoldable pub quote : Line → Line
unfolding escape
quote cs = 34 ∷ (escape cs ++ (34 ∷ []))

-- The digits of `n` in front of `tail`; a number has no more digits than `n + 1`.
unfoldable pub digits_from : ℕ → ℕ → Line → Line
digits_from zero n tail = tail
digits_from (suc fuel) n tail =
    let rest = digits_from fuel (n / 10) ((48 + n % 10) ∷ tail) in
    if leb n 9 then (48 + n % 10) ∷ tail else rest

-- `str(n)`
unfoldable pub digits : ℕ → Line
unfolding digits_from
digits n = digits_from (suc n) n []

-- The values that stand behind a key.
pub data Scalar : Type 0 where
  null : Scalar
  flag : Bool → Scalar
  number : ℕ → Scalar
  word : Line → Scalar

-- `_scalar`
unfoldable pub scalar : Scalar → Line
unfolding quote digits
scalar null = text "null"
scalar (flag true) = text "true"
scalar (flag false) = text "false"
scalar (number n) = digits n
scalar (word s) = quote s

-- `f"{indent}{key}: {_scalar(value)}"`
unfoldable pub field : Line → String → Scalar → Line
unfolding scalar
field indent key value = indent ++ (text key ++ (58 ∷ 32 ∷ scalar value))

abbrev pub words : String → Scalar
words s = word (text s)

abbrev pub optional : Option String → Scalar
optional none = null
optional (some s) = words s

-- The values of the enumerations.
abbrev pub priority_text : BusinessPriority → String
priority_text p0 = "P0"
priority_text p1 = "P1"
priority_text p2 = "P2"
priority_text p3 = "P3"

abbrev pub kind_text : WorkerKind → String
kind_text basic_agent = "basic_agent"
kind_text standard_agent = "standard_agent"
kind_text advanced_agent = "advanced_agent"
kind_text expert_agent = "expert_agent"

abbrev pub phase_text : QueuePhase → String
phase_text QueuePhase.queued = "queued"
phase_text QueuePhase.selected = "selected"
phase_text QueuePhase.dispatched = "dispatched"
phase_text QueuePhase.retired = "retired"

abbrev pub receipt_phase_text : ReceiptPhase → String
receipt_phase_text ReceiptPhase.selected = "selected"
receipt_phase_text ReceiptPhase.dispatched = "dispatched"

abbrev pub class_text : ConflictKeyClass → String
class_text ConflictKeyClass.hard_exclusive = "hard_exclusive"
class_text ConflictKeyClass.advisory = "advisory"
class_text ConflictKeyClass.unknown = "unknown"

-- The lines of the conflict keys in `_entry_lines`, in front of `rest`.
unfoldable pub conflict_lines : Line → List ConflictKey → List Line → List Line
unfolding field
conflict_lines indent [] rest = rest
conflict_lines indent (k ∷ ks) rest =
    field (indent ++ text "  - ") "value" (words k.value)
    ∷ field (indent ++ text "    ") "classification" (words (class_text k.classification))
    ∷ field (indent ++ text "    ") "canonical" (flag k.canonical)
    ∷ conflict_lines indent ks rest

abbrev digest_line : Line → Bool → String → List Line → List Line
digest_line indent true digest rest = field indent "content_digest" (words digest) ∷ rest
digest_line indent false digest rest = rest

-- `_entry_lines`
unfoldable pub entry_lines : QueueEntry → Bool → Line → List Line
unfolding conflict_lines
entry_lines e include_digest indent =
    field indent "schema_version" (words e.schema_version)
    ∷ field indent "queue_id" (words e.queue_id)
    ∷ field indent "task_id" (words e.task_id)
    ∷ field indent "revision" (number e.revision)
    ∷ field indent "enqueue_sequence" (number e.enqueue_sequence)
    ∷ field indent "enqueued_at" (words e.enqueued_at)
    ∷ field indent "business_priority" (words (priority_text e.business_priority))
    ∷ field indent "aging_basis_at" (words e.aging_basis_at)
    ∷ field indent "worker_kind_request" (words (kind_text e.worker_kind_request))
    ∷ field indent "assessment_id" (words e.assessment_id)
    ∷ field indent "state" (words (phase_text e.state))
    ∷ (indent ++ text "conflict_keys:")
    ∷ conflict_lines indent e.conflict_keys (
        field indent "retry_budget_used" (number e.retry_budget_used)
        ∷ digest_line indent include_digest e.content_digest
            (field indent "selection_generation" (number e.selection_generation) ∷ []))

abbrev item : Line → Scalar → Line
item indent value = indent ++ (text "  - " ++ scalar value)

-- `_receipt_lines`
unfoldable pub receipt_lines : ScheduleReceipt → Bool → Line → List Line
unfolding field scalar
receipt_lines r include_digest indent =
    field indent "schema_version" (words r.schema_version)
    ∷ field indent "receipt_id" (words r.receipt_id)
    ∷ field indent "queue_id" (words r.queue_id)
    ∷ field indent "task_id" (words r.task_id)
    ∷ field indent "revision" (number r.revision)
    ∷ field indent "enqueue_sequence" (number r.enqueue_sequence)
    ∷ field indent "selected_at" (words r.selected_at)
    ∷ (indent ++ text "order_key:")
    ∷ item indent (number r.order_key.priority_rank)
    ∷ item indent (number r.order_key.aging_rank)
    ∷ item indent (number r.order_key.sequence)
    ∷ item indent (words r.order_key.key_queue_id)
    ∷ field indent "selection_reason" (words r.selection_reason)
    ∷ field indent "worker_kind" (words (kind_text r.worker_kind))
    ∷ field indent "dispatch_event_id" (optional r.dispatch_event_id)
    ∷ field indent "phase" (words (receipt_phase_text r.phase))
    ∷ digest_line indent include_digest r.content_digest
        (field indent "selection_generation" (number r.selection_generation) ∷ [])

-- Equality of two documents.
unfoldable pub same_lines : List Line → List Line → Bool
same_lines [] [] = true
same_lines (a ∷ xs) (b ∷ ys) = Text.list_eq a b && same_lines xs ys
same_lines _ _ = false
