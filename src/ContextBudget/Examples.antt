-- ===== src/ContextBudget/Examples.antt =====
-- Budgets of a few windows.
use dockyard.Base.{ℕ, ◌*◌, ◌≤◌, ◌<◌, ◌≡◌, refl, ◌⊎◌, raises, returns, ℕ_discrete}
use dockyard.CoreTypes.{basic, expert}
use dockyard.ContextBudget.{
  BudgetResult, budget_percent_of, budget_cap_of, compute_budget, window_not_positive,
  window_too_small,
}
use dockyard.ContextBudget.Bounds.{IsBudget, compute_budget_cases, result_of}

program : Unit {0}
unfolding compute_budget budget_percent_of budget_cap_of ℕ_discrete
program = tt

abbrev wide : ℕ
wide = 200000

abbrev wider : ℕ
wider = 1000000

small_run : compute_budget 4 basic ≡ raises window_too_small
unfolding program
small_run = refl

basic_run : compute_budget wide basic ≡ returns (result_of wide basic)
unfolding program
basic_run = refl

capped : (result_of wider expert).budget_tokens ≡ 512000
unfolding program
capped = refl

large_run : compute_budget wider basic ≡ returns (result_of wider basic)
unfolding program
large_run = refl

compute_budget_cases_example :
    ((wide ≡ 0) × (compute_budget wide basic ≡ raises window_not_positive))
    ⊎ (((1 ≤ wide)
          × (wide * budget_percent_of basic < 100)
          × (compute_budget wide basic ≡ raises window_too_small))
        ⊎ ((100 ≤ wide * budget_percent_of basic)
            × ((r : BudgetResult) × (compute_budget wide basic ≡ returns r)
                × IsBudget wide basic r)))
compute_budget_cases_example = compute_budget_cases wide basic
