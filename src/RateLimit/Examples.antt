-- ===== src/RateLimit/Examples.antt =====
-- A provider with a retry signal, a reset signal and one without time information.
use dockyard.Base.{
  ℕ, ◌≤◌, ◌≡◌, refl, All, [], ◌∷◌, any, some, none, Option, List, arith, returns, raises, true, ltb,
  ℕ_discrete, String-discrete,
}
use dockyard.RateLimit.{
  RateLimitSignal, RateLimitCheckRequest, RateLimitDecision, allow, wait, fail_closed, retry_after,
  within_limit, exhausted, request, provider_429, future_observation, ceil_seconds, retry_wait,
  reset_wait, has_time_info, effective_wait, candidate_of, candidates, max_wait, aggregate, decide,
  evaluate, matches, RateLimitReason-discrete, RateLimitScope-discrete,
}
use dockyard.RateLimit.Verdict.{Verdict}
use dockyard.RateLimit.Decision.{matching, evaluate-Verdict, evaluate_future}

program : Unit {0}
unfolding ceil_seconds retry_wait reset_wait has_time_info effective_wait candidate_of candidates
    max_wait aggregate decide evaluate matches RateLimitReason-discrete RateLimitScope-discrete
    ℕ_discrete String-discrete
program = tt

abbrev signal : ℕ → Option ℕ → Option ℕ → Option ℕ → RateLimitSignal
signal observed retry reset remaining = record {
  provider = "p";
  scope = request;
  observed_at = observed;
  retry_after_seconds = retry;
  reset_at = reset;
  limit = none;
  remaining = remaining;
  source = provider_429;
}

abbrev signals : List RateLimitSignal
signals =
    signal 1000000 (some 3) none none
    ∷ signal 1000000 none (some 6500000) none
    ∷ signal 1000000 none none (some 5)
    ∷ []

abbrev check : ℕ → ℕ → RateLimitCheckRequest
check now units = record {
  provider = "p";
  scope = request;
  now = now;
  units_requested = units;
  signals = signals;
}

abbrev told_to_wait : RateLimitDecision
told_to_wait = record { action = wait; wait_seconds = 5; reason = retry_after }

abbrev let_through : RateLimitDecision
let_through = record { action = allow; wait_seconds = 0; reason = within_limit }

-- The reset is four and a half seconds away.
wait_run : evaluate (check 2000000 1) ≡ returns told_to_wait
unfolding program
wait_run = refl

allow_run : evaluate (check 7000000 1) ≡ returns let_through
unfolding program
allow_run = refl

fail_run :
    evaluate (check 7000000 6)
    ≡ returns (record { action = fail_closed; wait_seconds = 0; reason = exhausted })
unfolding program
fail_run = refl

early : any (λ s. ltb 0 s.observed_at) (matching (check 0 1)) ≡ true
unfolding program
early = refl

observed : All (λ s. s.observed_at ≤ 2000000) (matching (check 2000000 1))
unfolding program
observed = (omega arith, (omega arith, (omega arith, tt)))

evaluate-Verdict_example :
    (d : RateLimitDecision) × (evaluate (check 2000000 1) ≡ returns d)
    × Verdict 2000000 1 (matching (check 2000000 1)) d
evaluate-Verdict_example = evaluate-Verdict (check 2000000 1) observed

future_run : evaluate (check 0 1) ≡ raises future_observation
future_run = evaluate_future (check 0 1) early
