-- ===== src/ContextBudget/Bounds.antt =====
-- What `compute_budget` (skills/agentdesk/scripts/context_budget.py) guarantees of a budget.
use dockyard.Base.{sym, ◌∙◌, subst}
use dockyard.Base.{
  ℕ, ◌+◌, ◌-◌, ◌*◌, ◌/◌, ◌≤◌, ◌<◌, ◌≡◌, refl, comparable_number, arith, Attempt, returns, raises,
  ◌⊎◌, inl, inr,
}
use dockyard.CoreTypes.{TaskDifficulty, basic, standard, advanced, expert}
use dockyard.ContextBudget.{
  BudgetError, BudgetResult, budget_percent_of, budget_cap_of, compute_budget, min,
  window_not_positive, window_too_small,
}

-- The budget of a window by the percentage and the cap alone.
pub record IsBudget (window : ℕ) (difficulty : TaskDifficulty) (r : BudgetResult) : Type 0 where
  pub window_kept : r.context_window_tokens ≡ window
  pub difficulty_kept : r.difficulty ≡ difficulty
  pub usable : 1 ≤ r.budget_tokens
  pub partition : r.budget_tokens + r.reserved_tokens ≡ window
  pub within_percent : r.budget_tokens * 100 ≤ window * budget_percent_of difficulty
  pub within_cap : r.budget_tokens ≤ budget_cap_of difficulty
  pub largest :
      (n : ℕ)
      → n * 100 ≤ window * budget_percent_of difficulty
      → n ≤ budget_cap_of difficulty
      → n ≤ r.budget_tokens
  pub reserve : window * 35 ≤ r.reserved_tokens * 100

abbrev percentage : ℕ → TaskDifficulty → ℕ
percentage window difficulty = (window * budget_percent_of difficulty) / 100

abbrev pub budget_of : ℕ → TaskDifficulty → ℕ
budget_of window difficulty = min (percentage window difficulty) (budget_cap_of difficulty)

abbrev pub result_of : ℕ → TaskDifficulty → BudgetResult
result_of window difficulty = record {
  context_window_tokens = window;
  difficulty = difficulty;
  budget_percent = budget_percent_of difficulty;
  budget_cap_tokens = budget_cap_of difficulty;
  budget_tokens = budget_of window difficulty;
  reserved_tokens = window - budget_of window difficulty;
}

-- The bounds on the two tables that the reserve of 35 % rests on.
percent_range : (d : TaskDifficulty) → (1 ≤ budget_percent_of d) × (budget_percent_of d ≤ 65)
unfolding budget_percent_of
percent_range basic = (omega arith, omega arith)
percent_range standard = (omega arith, omega arith)
percent_range advanced = (omega arith, omega arith)
percent_range expert = (omega arith, omega arith)

cap_positive : (d : TaskDifficulty) → 1 ≤ budget_cap_of d
unfolding budget_cap_of
cap_positive basic = omega arith
cap_positive standard = omega arith
cap_positive advanced = omega arith
cap_positive expert = omega arith

percent_share : (window : ℕ) (d : TaskDifficulty) → window * budget_percent_of d ≤ window * 65
unfolding budget_percent_of
percent_share window basic = omega arith
percent_share window standard = omega arith
percent_share window advanced = omega arith
percent_share window expert = omega arith

leb_cases : (a b : ℕ) → (a ≤ b) ⊎ (b < a)
leb_cases a b = ground arith

budget_run :
    (window : ℕ) (d : TaskDifficulty)
    → 100 ≤ window * budget_percent_of d
    → compute_budget window d ≡ returns (result_of window d)
unfolding compute_budget
budget_run window d h = ground (arith, percent_range d, cap_positive d, percent_share window d)

budget_small :
    (window : ℕ) (d : TaskDifficulty)
    → 1 ≤ window
    → window * budget_percent_of d < 100
    → compute_budget window d ≡ raises window_too_small
unfolding compute_budget
budget_small window d w h = ground (arith, percent_range d, cap_positive d)

budget_zero :
    (window : ℕ) (d : TaskDifficulty)
    → window ≡ 0
    → compute_budget window d ≡ raises window_not_positive
unfolding compute_budget
budget_zero window d w = ground arith

result_of-IsBudget :
    (window : ℕ) (d : TaskDifficulty)
    → 100 ≤ window * budget_percent_of d
    → IsBudget window d (result_of window d)
result_of-IsBudget window d h = record {
  window_kept = refl;
  difficulty_kept = refl;
  usable = ground (arith, cap_positive d);
  partition = ground (arith, percent_share window d);
  within_percent = ground arith;
  within_cap = ground arith;
  largest = λ n k c. ground arith;
  reserve = ground (arith, percent_share window d);
}

-- compute_budget refuses a zero window, refuses a window whose share is below one token, and else
-- returns the largest number of tokens within the percentage and the cap, which with the reserve
-- adds up to the window and leaves at least 35 percent of it; no assertion of the code is
-- reachable.
pub compute_budget_cases :
    (window : ℕ) (difficulty : TaskDifficulty)
    → ((window ≡ 0) × (compute_budget window difficulty ≡ raises window_not_positive))
      ⊎ (((1 ≤ window)
            × (window * budget_percent_of difficulty < 100)
            × (compute_budget window difficulty ≡ raises window_too_small))
          ⊎ ((100 ≤ window * budget_percent_of difficulty)
              × ((r : BudgetResult) × (compute_budget window difficulty ≡ returns r)
                  × IsBudget window difficulty r)))
compute_budget_cases window difficulty =
    elim (leb_cases 100 (window * budget_percent_of difficulty)) [
      | inl enough ↦ inr (
          inr (
            enough,
            (
              result_of window difficulty,
              budget_run window difficulty enough,
              result_of-IsBudget window difficulty enough,
            ),
          ))
      | inr few ↦ elim (leb_cases 1 window) [
        | inl some ↦ inr (inl (some, few, budget_small window difficulty some few))
        | inr none ↦ inl (omega arith, budget_zero window difficulty (omega arith))
      ]
    ]

share_monotone :
    (w v : ℕ) (d : TaskDifficulty) → w ≤ v → w * budget_percent_of d ≤ v * budget_percent_of d
unfolding budget_percent_of
share_monotone w v basic h = omega arith
share_monotone w v standard h = omega arith
share_monotone w v advanced h = omega arith
share_monotone w v expert h = omega arith

returned :
    (q r : BudgetResult)
    → ◌≡◌ {A = Attempt BudgetError BudgetResult} (returns q) (returns r)
    → q ≡ r
returned q r h = cc

refused : (e : BudgetError) (r : BudgetResult) → raises e ≡ returns r → ⊥
refused e r h = cc

compute_budget-IsBudget :
    (window : ℕ) (d : TaskDifficulty) (r : BudgetResult)
    → compute_budget window d ≡ returns r
    → IsBudget window d r
compute_budget-IsBudget window d r h = elim (compute_budget_cases window d) [
  | inl (_, e) ↦ absurd (refused window_not_positive r (sym e ∙ h))
  | inr (inl (_, _, e)) ↦ absurd (refused window_too_small r (sym e ∙ h))
  | inr (inr (_, (q, e, b))) ↦ subst (IsBudget window d) (returned q r (sym e ∙ h)) b
]

-- At the same difficulty a window at least as large never gets a smaller budget, where both
-- succeed.
pub compute_budget-monotone :
    (w v : ℕ) (d : TaskDifficulty) (r s : BudgetResult)
    → w ≤ v
    → compute_budget w d ≡ returns r
    → compute_budget v d ≡ returns s
    → r.budget_tokens ≤ s.budget_tokens
compute_budget-monotone w v d r s h first second =
    let small = compute_budget-IsBudget w d r first in
    let large = compute_budget-IsBudget v d s second in
    let share = share_monotone w v d h in
    large.largest r.budget_tokens (chained small.within_percent share) small.within_cap
  where
    chained :
        r.budget_tokens * 100 ≤ w * budget_percent_of d
        → w * budget_percent_of d ≤ v * budget_percent_of d
        → r.budget_tokens * 100 ≤ v * budget_percent_of d
    chained a b = omega arith
