-- ===== src/RateLimit/Waits.antt =====
-- The waits of single signals and their maximum (skills/agentdesk/scripts/rate_limit.py).
use dockyard.Base.{
  ℕ, ◌+◌, ◌-◌, ◌*◌, ◌≤◌, ◌≡◌, refl, max, leb, comparable_number, Bool, true, false, not, ◌&&◌, List,
  [], ◌∷◌, any, Option, none, some, arith,
}
use dockyard.RateLimit.{
  RateLimitSignal, microseconds, ceil_seconds, retry_wait, reset_wait, or_zero, is_some,
  has_time_info, effective_wait, short, candidate_of, candidates, max_wait,
}

-- Nothing that a signal announced is still ahead at an instant.
abbrev pub Over : Option ℕ → ℕ → ℕ → Type 0
Over none base now = Unit
Over (some n) base now = base + n ≤ now

abbrev pub OverSeconds : Option ℕ → ℕ → ℕ → Type 0
OverSeconds none base now = Unit
OverSeconds (some n) base now = base + n * microseconds ≤ now

abbrev pub Passed : ℕ → RateLimitSignal → Type 0
Passed now sig = OverSeconds sig.retry_after_seconds sig.observed_at now × Over sig.reset_at 0 now

ceil_enough : (n w : ℕ) → ceil_seconds n ≤ w → n ≤ w * microseconds
unfolding ceil_seconds
ceil_enough n w h = omega arith

ceil_least : (n w : ℕ) → n ≤ w * microseconds → ceil_seconds n ≤ w
unfolding ceil_seconds
ceil_least n w h = omega arith

-- The two waits as functions of their fields.
abbrev retry_of : Option ℕ → ℕ → ℕ → Option ℕ
retry_of o observed now = elim o [
  | none ↦ none
  | some seconds ↦ some (ceil_seconds (seconds * microseconds - (now - observed)))
]

abbrev reset_of : Option ℕ → ℕ → Option ℕ
reset_of o now = elim o [ none ↦ none | some reset ↦ some (ceil_seconds (reset - now)) ]

retry_enough :
    (o : Option ℕ) (observed now w : ℕ)
    → observed ≤ now
    → or_zero (retry_of o observed now) ≤ w
    → OverSeconds o observed (now + w * microseconds)
retry_enough none observed now w k h = tt
retry_enough (some n) observed now w k h =
    let e = ceil_enough (n * microseconds - (now - observed)) w h in omega arith

retry_least :
    (o : Option ℕ) (observed now w : ℕ)
    → observed ≤ now
    → OverSeconds o observed (now + w * microseconds)
    → or_zero (retry_of o observed now) ≤ w
retry_least none observed now w k h = omega arith
retry_least (some n) observed now w k h =
    ceil_least (n * microseconds - (now - observed)) w (omega arith)

reset_enough :
    (o : Option ℕ) (now w : ℕ) → or_zero (reset_of o now) ≤ w → Over o 0 (now + w * microseconds)
reset_enough none now w h = tt
reset_enough (some n) now w h = let e = ceil_enough (n - now) w h in omega arith

reset_least :
    (o : Option ℕ) (now w : ℕ) → Over o 0 (now + w * microseconds) → or_zero (reset_of o now) ≤ w
reset_least none now w h = omega arith
reset_least (some n) now w h = ceil_least (n - now) w (omega arith)

max_parts : (a b w : ℕ) → max a b ≤ w → (a ≤ w) × (b ≤ w)
max_parts a b w h = (omega arith, omega arith)

max_least : (a b w : ℕ) → a ≤ w → b ≤ w → max a b ≤ w
max_least a b w h k = omega arith

-- A signal's wait is at most `w` exactly when nothing is ahead after `w` seconds.
pub effective_wait-Passed :
    (now w : ℕ) (sig : RateLimitSignal)
    → sig.observed_at ≤ now
    → effective_wait now sig ≤ w
    → Passed (now + w * microseconds) sig
unfolding effective_wait retry_wait reset_wait
effective_wait-Passed now w sig o h =
    let (a, b) = max_parts _ _ w h in
    (
      retry_enough sig.retry_after_seconds sig.observed_at now w o a,
      reset_enough sig.reset_at now w b,
    )

pub effective_wait_least :
    (now w : ℕ) (sig : RateLimitSignal)
    → sig.observed_at ≤ now
    → Passed (now + w * microseconds) sig
    → effective_wait now sig ≤ w
unfolding effective_wait retry_wait reset_wait
effective_wait_least now w sig o p =
    max_least _ _ w (retry_least sig.retry_after_seconds sig.observed_at now w o p.0)
      (reset_least sig.reset_at now w p.1)

untimed_retry :
    (o : Option ℕ) (observed now : ℕ) → is_some o ≡ false → or_zero (retry_of o observed now) ≡ 0
untimed_retry none observed now h = refl
untimed_retry (some n) observed now h = cc

untimed_reset : (o : Option ℕ) (now : ℕ) → is_some o ≡ false → or_zero (reset_of o now) ≡ 0
untimed_reset none now h = refl
untimed_reset (some n) now h = cc

-- A signal without time information has no wait.
untimed-wait :
    (now : ℕ) (sig : RateLimitSignal) → has_time_info sig ≡ false → effective_wait now sig ≡ 0
unfolding has_time_info effective_wait retry_wait reset_wait
untimed-wait now sig h = ground (
  arith,
  untimed_retry sig.retry_after_seconds sig.observed_at now,
  untimed_reset sig.reset_at now,
)

-- The largest wait of all signals, also of those that are no candidates.
unfoldable pub greatest : ℕ → List RateLimitSignal → ℕ
greatest now [] = 0
greatest now (sig ∷ sigs) = max (effective_wait now sig) (greatest now sigs)

abbrev pub untimed_short : ℕ → RateLimitSignal → Bool
untimed_short units sig = not (has_time_info sig) && short sig.remaining units

abbrev pub untimed_ample : ℕ → RateLimitSignal → Bool
untimed_ample units sig = not (has_time_info sig) && not (short sig.remaining units)

pub max_wait-candidates :
    (now units : ℕ) (sigs : List RateLimitSignal)
    → max_wait (candidates now units sigs).wait_candidates ≡ greatest now sigs
unfolding candidates candidate_of max_wait greatest
max_wait-candidates now units [] = refl
max_wait-candidates now units (sig ∷ sigs) = ground (arith, max_wait-candidates now units sigs)

pub any_fail-candidates :
    (now units : ℕ) (sigs : List RateLimitSignal)
    → (candidates now units sigs).any_fail ≡ any (untimed_short units) sigs
unfolding candidates candidate_of
any_fail-candidates now units [] = refl
any_fail-candidates now units (sig ∷ sigs) =
    ground (arith, any_fail-candidates now units sigs, untimed-wait now sig)

pub any_allow-candidates :
    (now units : ℕ) (sigs : List RateLimitSignal)
    → (candidates now units sigs).any_allow ≡ any (untimed_ample units) sigs
unfolding candidates candidate_of
any_allow-candidates now units [] = refl
any_allow-candidates now units (sig ∷ sigs) =
    ground (arith, any_allow-candidates now units sigs, untimed-wait now sig)

-- There is a candidate for waiting exactly when the largest wait is positive.
pub wait_candidates-some :
    (now units : ℕ) (sigs : List RateLimitSignal)
    → any (λ c. true) (candidates now units sigs).wait_candidates ≡ leb 1 (greatest now sigs)
unfolding candidates candidate_of greatest
wait_candidates-some now units [] = refl
wait_candidates-some now units (sig ∷ sigs) = ground (arith, wait_candidates-some now units sigs)
