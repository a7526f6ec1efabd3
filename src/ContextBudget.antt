-- ===== src/ContextBudget.antt =====
-- skills/agentdesk/scripts/context_budget.py: the token budget of a task.
pub mod Bounds
mod Examples
use dockyard.Base.{
  ℕ, zero, suc, ◌+◌, ◌-◌, ◌*◌, ◌/◌, ◌≤◌, ◌<◌, ◌≡◌, refl, leb, ltb, ◌==◌, comparable_number, Bool,
  true, false, not, if◌then◌else◌, arith, Attempt, returns, raises, require, ◌>>=◌, ◌>>◌, ◌⊎◌, inl,
  inr,
}
use dockyard.CoreTypes.{TaskDifficulty, basic, standard, advanced, expert}

pub data BudgetError : Type 0 where
  window_not_positive window_too_small percent_corrupt : BudgetError
  above_percentage above_cap not_a_partition reserve_too_small : BudgetError

pub record BudgetResult : Type 0 where
  pub context_window_tokens : ℕ
  pub difficulty : TaskDifficulty
  pub budget_percent : ℕ
  pub budget_cap_tokens : ℕ
  pub budget_tokens : ℕ
  pub reserved_tokens : ℕ

unfoldable pub budget_percent_of : TaskDifficulty → ℕ
budget_percent_of basic = 20
budget_percent_of standard = 35
budget_percent_of advanced = 50
budget_percent_of expert = 65

unfoldable pub budget_cap_of : TaskDifficulty → ℕ
budget_cap_of basic = 64000
budget_cap_of standard = 128000
budget_cap_of advanced = 256000
budget_cap_of expert = 512000

abbrev pub min : ℕ → ℕ → ℕ
min a b = if leb a b then a else b

-- `compute_budget` on a window size; a negative one is refused like zero. The budget is at most the
-- window, so the subtraction is exact.
unfoldable pub compute_budget : ℕ → TaskDifficulty → Attempt BudgetError BudgetResult
unfolding budget_percent_of budget_cap_of
compute_budget window difficulty = do
  require (leb 1 window) window_not_positive
  let percent = budget_percent_of difficulty
  let cap = budget_cap_of difficulty
  require (leb 1 percent) percent_corrupt
  require (leb percent 65) percent_corrupt
  let percentage_budget = (window * percent) / 100
  let budget = min percentage_budget cap
  let reserved = window - budget
  require (leb 1 budget) window_too_small
  require (leb budget percentage_budget) above_percentage
  require (leb budget cap) above_cap
  require (budget + reserved == window) not_a_partition
  let minimum_reserved = (window * 35 + 99) / 100
  require (leb minimum_reserved reserved) reserve_too_small
  returns (record {
    context_window_tokens = window;
    difficulty = difficulty;
    budget_percent = percent;
    budget_cap_tokens = cap;
    budget_tokens = budget;
    reserved_tokens = reserved;
  })
