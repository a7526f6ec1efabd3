-- ===== src/RateLimit/Decision.antt =====
-- What `RateLimitService.evaluate` (skills/agentdesk/scripts/rate_limit.py) decides.
use dockyard.Base.{
  ℕ, ◌+◌, ◌*◌, ◌≤◌, ◌≡◌, ◌≢◌, refl, leb, ltb, comparable_number, true, false, List, [], ◌∷◌, any,
  keep, All, arith, inl, inr, Bool-cases, sym, ◌∙◌, ap, subst, Attempt, returns, raises, ℕ_discrete,
}
use dockyard.RateLimit.{
  RateLimitSignal, RateLimitCheckRequest, RateLimitDecision, RateLimitError, allow, wait,
  fail_closed, future_observation, microseconds, candidates, decide, evaluate, matches,
  RateLimitReason-discrete,
}
use dockyard.RateLimit.Waits.{Passed, max_wait-candidates, wait_candidates-some}
use dockyard.RateLimit.Verdict.{
  Verdict, waiting, failing, allowing, Observed, aggregate_cases, Outcome-Verdict, nothing_known,
}

abbrev pub matching : RateLimitCheckRequest → List RateLimitSignal
matching r = keep (matches r) r.signals

not_future :
    (now : ℕ) (sigs : List RateLimitSignal)
    → Observed now sigs
    → any (λ sig. ltb now sig.observed_at) sigs ≡ false
not_future now [] o = refl
not_future now (s ∷ sigs) o = ground (arith, not_future now sigs o.1)

Observed-of :
    (now : ℕ) (sigs : List RateLimitSignal)
    → any (λ sig. ltb now sig.observed_at) sigs ≡ false
    → Observed now sigs
Observed-of now [] h = tt
Observed-of now (s ∷ sigs) h = (ground (arith), Observed-of now sigs (ground (arith)))

nil_of : {A : Type 0} (xs : List A) → any (λ x. true) xs ≡ false → xs ≡ []
nil_of [] h = refl
nil_of (x ∷ xs) h = cc

-- If no matching signal was observed after the instant of the request, evaluate returns a
-- decision that its constructor accepts: the least number of seconds after which nothing that a
-- matching signal announced is ahead; or, if nothing is ahead, fail-closed exactly if some
-- matching signal without time information leaves unknown, no or too few units, and else allow.
pub evaluate-Verdict :
    (r : RateLimitCheckRequest)
    → All (λ s. s.observed_at ≤ r.now) (matching r)
    → (d : RateLimitDecision) × (evaluate r ≡ returns d)
      × Verdict r.now r.units_requested (matching r) d
unfolding evaluate decide RateLimitReason-discrete ℕ_discrete
evaluate-Verdict r o = elim (Bool-cases (any (λ s. true) (matching r))) [
  | inl t ↦
      let cs = candidates r.now r.units_requested (matching r) in
      let (d, run, v) = aggregate_cases cs (
        wait_candidates-some r.now r.units_requested (matching r)
        ∙ ap (leb 1) (sym (max_wait-candidates r.now r.units_requested (matching r)))) in
      (
        d,
        rw (t, not_future r.now (matching r) o) run,
        Outcome-Verdict r.now r.units_requested (matching r) d o v,
      )
  | inr f ↦ (
    nothing_known,
    rw f refl,
    subst (λ xs. Verdict r.now r.units_requested xs nothing_known) (sym (nil_of (matching r) f))
        (allowing refl refl tt refl),
  )
]

-- A matching signal observed after the request's instant is an error, whatever the others say.
pub evaluate_future :
    (r : RateLimitCheckRequest)
    → any (λ s. ltb r.now s.observed_at) (matching r) ≡ true
    → evaluate r ≡ raises future_observation
unfolding evaluate
evaluate_future r h = rw (some_of (matching r) h, h) refl
  where
    some_of :
        (xs : List RateLimitSignal)
        → any (λ s. ltb r.now s.observed_at) xs ≡ true
        → any (λ s. true) xs ≡ true
    some_of [] k = k
    some_of (x ∷ xs) k = refl

evaluate-observed :
    (r : RateLimitCheckRequest) (d : RateLimitDecision)
    → evaluate r ≡ returns d
    → All (λ s. s.observed_at ≤ r.now) (matching r)
evaluate-observed r d h = elim (Bool-cases (any (λ s. ltb r.now s.observed_at) (matching r))) [
  | inl t ↦ absurd (conflict (sym (evaluate_future r t) ∙ h))
  | inr f ↦ Observed-of r.now (matching r) f
]
  where
    conflict :
        ◌≡◌ {A = Attempt RateLimitError RateLimitDecision} (raises future_observation) (returns d)
        → ⊥
    conflict e = cc

decision-Verdict :
    (r : RateLimitCheckRequest) (d : RateLimitDecision)
    → evaluate r ≡ returns d
    → Verdict r.now r.units_requested (matching r) d
decision-Verdict r d h =
    let (e, run, v) = evaluate-Verdict r (evaluate-observed r d h) in
    subst (Verdict r.now r.units_requested (matching r)) (same e (sym run ∙ h)) v
  where
    same :
        (e : RateLimitDecision)
        → ◌≡◌ {A = Attempt RateLimitError RateLimitDecision} (returns e) (returns d)
        → e ≡ d
    same e k = cc

-- A caller that was told to wait and asks again with the same signals after exactly that many
-- seconds is, if a decision is returned, not told to wait.
pub evaluate-after_wait :
    (r : RateLimitCheckRequest) (d e : RateLimitDecision)
    → evaluate r ≡ returns d
    → d.action ≡ wait
    → evaluate (record r { now = r.now + d.wait_seconds * microseconds }) ≡ returns e
    → e.action ≢ wait
unfolding matches
evaluate-after_wait r d e h a k again = elim (decision-Verdict r d h) [
  | waiting _ _ p _ ↦
      elim (decision-Verdict (record r { now = r.now + d.wait_seconds * microseconds }) e k) [
        | waiting _ m _ least ↦
            let later =
              subst (λ n. All (Passed n) (matching r))
                (later_now (r.now + d.wait_seconds * microseconds)) p in
            let none_left = least 0 later in omega arith
        | failing b _ _ _ ↦ clash_fail (sym b ∙ again)
        | allowing b _ _ _ ↦ clash_allow (sym b ∙ again)
      ]
  | failing b _ _ _ ↦ clash_fail (sym b ∙ a)
  | allowing b _ _ _ ↦ clash_allow (sym b ∙ a)
]
  where
    later_now : (n : ℕ) → n ≡ n + 0 * microseconds
    later_now n = omega arith

    clash_fail : fail_closed ≡ wait → ⊥
    clash_fail e = cc

    clash_allow : allow ≡ wait → ⊥
    clash_allow e = cc
