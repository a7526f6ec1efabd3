-- ===== src/RateLimit/Verdict.antt =====
-- The meaning of a decision, and the aggregation of the candidates
-- (skills/agentdesk/scripts/rate_limit.py).
use dockyard.Base.{
  ℕ, ◌+◌, ◌*◌, ◌≤◌, ◌≡◌, refl, leb, comparable_number, Bool, true, false, if◌then◌else◌, List, [],
  ◌∷◌, any, All, arith, ◌⊎◌, inl, inr, Bool-cases, sym, ◌∙◌, subst, returns, ℕ_discrete,
}
use dockyard.RateLimit.{
  RateLimitSignal, RateLimitDecision, allow, wait, fail_closed, no_signals, within_limit,
  retry_after, insufficient, exhausted, microseconds, Candidates, candidates, max_wait, aggregate,
  decide, RateLimitReason-discrete,
}
use dockyard.RateLimit.Waits.{
  Passed, effective_wait-Passed, effective_wait_least, greatest, untimed_short, max_wait-candidates,
  any_fail-candidates,
}

-- The meaning of a decision for the signals that concern a request.
pub data Verdict (now units : ℕ) (sigs : List RateLimitSignal) (d : RateLimitDecision)
    : Type 0 where
  waiting :
      d.action ≡ wait
      → 1 ≤ d.wait_seconds
      → All (Passed (now + d.wait_seconds * microseconds)) sigs
      → ((w : ℕ) → All (Passed (now + w * microseconds)) sigs → d.wait_seconds ≤ w)
      → Verdict now units sigs d
  failing :
      d.action ≡ fail_closed
      → d.wait_seconds ≡ 0
      → All (Passed now) sigs
      → any (untimed_short units) sigs ≡ true
      → Verdict now units sigs d
  allowing :
      d.action ≡ allow
      → d.wait_seconds ≡ 0
      → All (Passed now) sigs
      → any (untimed_short units) sigs ≡ false
      → Verdict now units sigs d

abbrev pub Observed : ℕ → List RateLimitSignal → Type 0
Observed now sigs = All (λ s. s.observed_at ≤ now) sigs

greatest-Passed :
    (now w : ℕ) (sigs : List RateLimitSignal)
    → Observed now sigs
    → greatest now sigs ≤ w
    → All (Passed (now + w * microseconds)) sigs
unfolding greatest
greatest-Passed now w [] o h = tt
greatest-Passed now w (s ∷ sigs) o h =
    (effective_wait-Passed now w s o.0 (omega arith), greatest-Passed now w sigs o.1 (omega arith))

greatest_least :
    (now w : ℕ) (sigs : List RateLimitSignal)
    → Observed now sigs
    → All (Passed (now + w * microseconds)) sigs
    → greatest now sigs ≤ w
unfolding greatest
greatest_least now w [] o h = omega arith
greatest_least now w (s ∷ sigs) o h =
    let a = effective_wait_least now w s o.0 h.0 in
    let b = greatest_least now w sigs o.1 h.1 in omega arith

Passed-now :
    (now : ℕ) (sigs : List RateLimitSignal)
    → Observed now sigs
    → greatest now sigs ≡ 0
    → All (Passed now) sigs
Passed-now now sigs o h =
    subst (λ n. All (Passed n) sigs) (plus_none now) (greatest-Passed now 0 sigs o (omega arith))
  where
    plus_none : (n : ℕ) → n + 0 * microseconds ≡ n
    plus_none n = omega arith

leb-true : (a b : ℕ) → a ≤ b → leb a b ≡ true
leb-true a b h = ground (arith)

decide-wait :
    (seconds : ℕ) (retry : Bool)
    → 1 ≤ seconds
    → decide wait seconds (if retry then retry_after else insufficient)
      ≡ returns (record {
        action = wait;
        wait_seconds = seconds;
        reason = if retry then retry_after else insufficient;
      })
unfolding decide RateLimitReason-discrete
decide-wait seconds true h = rw (leb-true 1 seconds h) refl
decide-wait seconds false h = rw (leb-true 1 seconds h) refl

-- The three outcomes of step 5, none of which the constructor refuses.
pub data Outcome (cs : Candidates) (d : RateLimitDecision) : Type 0 where
  waited :
      d.action ≡ wait
      → d.wait_seconds ≡ max_wait cs.wait_candidates
      → 1 ≤ d.wait_seconds
      → Outcome cs d
  failed :
      d.action ≡ fail_closed
      → d.wait_seconds ≡ 0
      → max_wait cs.wait_candidates ≡ 0
      → cs.any_fail ≡ true
      → Outcome cs d
  allowed :
      d.action ≡ allow
      → d.wait_seconds ≡ 0
      → max_wait cs.wait_candidates ≡ 0
      → cs.any_fail ≡ false
      → Outcome cs d

abbrev wait_decision : Candidates → RateLimitDecision
wait_decision cs = record {
  action = wait;
  wait_seconds = max_wait cs.wait_candidates;
  reason = if any (λ c. c.1) cs.wait_candidates then retry_after else insufficient;
}

abbrev pub nothing_known : RateLimitDecision
nothing_known = record { action = allow; wait_seconds = 0; reason = no_signals }

aggregate-waits :
    (cs : Candidates)
    → any (λ c. true) cs.wait_candidates ≡ true
    → 1 ≤ max_wait cs.wait_candidates
    → (d : RateLimitDecision) × (aggregate cs ≡ returns d) × Outcome cs d
unfolding aggregate
aggregate-waits cs h m = (
  wait_decision cs,
  rw h (decide-wait (max_wait cs.wait_candidates) (any (λ c. c.1) cs.wait_candidates) m),
  waited refl refl m,
)

aggregate-fails :
    (cs : Candidates)
    → any (λ c. true) cs.wait_candidates ≡ false
    → max_wait cs.wait_candidates ≡ 0
    → cs.any_fail ≡ true
    → (d : RateLimitDecision) × (aggregate cs ≡ returns d) × Outcome cs d
unfolding aggregate decide RateLimitReason-discrete ℕ_discrete
aggregate-fails cs h z f = (
  record { action = fail_closed; wait_seconds = 0; reason = exhausted },
  rw (h, f) refl,
  failed refl refl z f,
)

aggregate-allows :
    (cs : Candidates)
    → any (λ c. true) cs.wait_candidates ≡ false
    → max_wait cs.wait_candidates ≡ 0
    → cs.any_fail ≡ false
    → (d : RateLimitDecision) × (aggregate cs ≡ returns d) × Outcome cs d
unfolding aggregate decide RateLimitReason-discrete ℕ_discrete
aggregate-allows cs h z f = elim (Bool-cases cs.any_allow) [
  | inl a ↦ (
    record { action = allow; wait_seconds = 0; reason = within_limit },
    rw (h, f, a) refl,
    allowed refl refl z f,
  )
  | inr n ↦ (
    record { action = allow; wait_seconds = 0; reason = no_signals },
    rw (h, f, n) refl,
    allowed refl refl z f,
  )
]

leb_one_cases : (n : ℕ) → ((1 ≤ n) × (leb 1 n ≡ true)) ⊎ ((n ≡ 0) × (leb 1 n ≡ false))
leb_one_cases n = ground (arith)

pub aggregate_cases :
    (cs : Candidates)
    → any (λ c. true) cs.wait_candidates ≡ leb 1 (max_wait cs.wait_candidates)
    → (d : RateLimitDecision) × (aggregate cs ≡ returns d) × Outcome cs d
aggregate_cases cs h = elim (leb_one_cases (max_wait cs.wait_candidates)) [
  | inl (m, t) ↦ aggregate-waits cs (h ∙ t) m
  | inr (z, f) ↦ elim (Bool-cases cs.any_fail) [
    | inl b ↦ aggregate-fails cs (h ∙ f) z b
    | inr b ↦ aggregate-allows cs (h ∙ f) z b
  ]
]

pub Outcome-Verdict :
    (now units : ℕ) (sigs : List RateLimitSignal) (d : RateLimitDecision)
    → Observed now sigs
    → Outcome (candidates now units sigs) d
    → Verdict now units sigs d
Outcome-Verdict now units sigs d o (waited a w m) =
    let g = w ∙ max_wait-candidates now units sigs in
    waiting a m (greatest-Passed now d.wait_seconds sigs o (omega arith))
      (λ n p. let l = greatest_least now n sigs o p in omega arith)
Outcome-Verdict now units sigs d o (failed a w z f) =
    failing a w (Passed-now now sigs o (sym (max_wait-candidates now units sigs) ∙ z))
      (sym (any_fail-candidates now units sigs) ∙ f)
Outcome-Verdict now units sigs d o (allowed a w z f) =
    allowing a w (Passed-now now sigs o (sym (max_wait-candidates now units sigs) ∙ z))
      (sym (any_fail-candidates now units sigs) ∙ f)
