-- ===== src/Portfolio/Entry.antt =====
-- The value objects of skills/agentdesk/scripts/portfolio_scheduler_store.py.
use dockyard.Base.{ℕ, String, Bool, List, Option, Comparable}
use dockyard.CoreTypes.{WorkerKind}

pub data BusinessPriority : Type 0 where
  p0 p1 p2 p3 : BusinessPriority

pub data QueuePhase : Type 0 where
  queued selected dispatched retired : QueuePhase

pub data ReceiptPhase : Type 0 where
  selected dispatched : ReceiptPhase

pub data ConflictKeyClass : Type 0 where
  hard_exclusive advisory unknown : ConflictKeyClass

unfoldable pub BusinessPriority-discrete : Discrete BusinessPriority
BusinessPriority-discrete = hlevel

unfoldable pub QueuePhase-discrete : Discrete QueuePhase
QueuePhase-discrete = hlevel

unfoldable pub ReceiptPhase-discrete : Discrete ReceiptPhase
ReceiptPhase-discrete = hlevel

unfoldable pub ConflictKeyClass-discrete : Discrete ConflictKeyClass
ConflictKeyClass-discrete = hlevel

instance abbrev pub comparable_priority : Comparable BusinessPriority
comparable_priority = record { dec = BusinessPriority-discrete }

instance abbrev pub comparable_phase : Comparable QueuePhase
comparable_phase = record { dec = QueuePhase-discrete }

instance abbrev pub comparable_receipt_phase : Comparable ReceiptPhase
comparable_receipt_phase = record { dec = ReceiptPhase-discrete }

instance abbrev pub comparable_class : Comparable ConflictKeyClass
comparable_class = record { dec = ConflictKeyClass-discrete }

pub record ConflictKey : Type 0 where
  pub value : String
  pub classification : ConflictKeyClass
  pub canonical : Bool

pub record QueueEntry : Type 0 where
  pub schema_version : String
  pub queue_id : String
  pub task_id : String
  pub revision : ℕ
  pub enqueue_sequence : ℕ
  pub enqueued_at : String
  pub business_priority : BusinessPriority
  pub aging_basis_at : String
  pub worker_kind_request : WorkerKind
  pub assessment_id : String
  pub state : QueuePhase
  pub conflict_keys : List ConflictKey
  pub retry_budget_used : ℕ
  pub content_digest : String
  pub selection_generation : ℕ

-- The four parts of `order_key`.
pub record OrderKey : Type 0 where
  pub priority_rank : ℕ
  pub aging_rank : ℕ
  pub sequence : ℕ
  pub key_queue_id : String

pub record ScheduleReceipt : Type 0 where
  pub schema_version : String
  pub receipt_id : String
  pub queue_id : String
  pub task_id : String
  pub revision : ℕ
  pub enqueue_sequence : ℕ
  pub selected_at : String
  pub order_key : OrderKey
  pub selection_reason : String
  pub worker_kind : WorkerKind
  pub dispatch_event_id : Option String
  pub phase : ReceiptPhase
  pub content_digest : String
  pub selection_generation : ℕ
