-- ===== src/CoreTypes.antt =====
-- skills/agentdesk/scripts/core_types.py: the enumerations that the services share.
use dockyard.Base.{Comparable}

pub data TaskDifficulty : Type 0 where
  basic standard advanced expert : TaskDifficulty

pub data WorkerKind : Type 0 where
  basic_agent standard_agent advanced_agent expert_agent : WorkerKind

unfoldable pub TaskDifficulty-discrete : Discrete TaskDifficulty
TaskDifficulty-discrete = hlevel

unfoldable pub WorkerKind-discrete : Discrete WorkerKind
WorkerKind-discrete = hlevel

instance abbrev pub comparable_difficulty : Comparable TaskDifficulty
comparable_difficulty = record { dec = TaskDifficulty-discrete }

instance abbrev pub comparable_kind : Comparable WorkerKind
comparable_kind = record { dec = WorkerKind-discrete }
