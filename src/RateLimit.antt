-- ===== src/RateLimit.antt =====
-- skills/agentdesk/scripts/rate_limit.py: the decision on a set of rate-limit signals.
pub mod Waits
pub mod Verdict
pub mod Decision
mod Examples
use dockyard.Base.Text
use dockyard.Base.{
  ℕ, zero, suc, ◌+◌, ◌-◌, ◌*◌, ◌/◌, max, leb, ltb, ◌==◌, Comparable, comparable_string,
  comparable_number, String, Bool, true, false, not, ◌&&◌, ◌||◌, if◌then◌else◌, List, [], ◌∷◌, any,
  keep, Option, none, some, Attempt, returns, raises, require, ◌>>=◌, ◌>>◌,
}

pub data RateLimitScope : Type 0 where
  request token concurrency unknown : RateLimitScope

pub data RateLimitSignalSource : Type 0 where
  provider_429 budget_throttle manual : RateLimitSignalSource

pub data RateLimitAction : Type 0 where
  allow wait fail_closed : RateLimitAction

pub data RateLimitReason : Type 0 where
  no_signals within_limit retry_after insufficient exhausted : RateLimitReason

pub data RateLimitError : Type 0 where
  provider_empty provider_wrapped provider_control reset_before_observed : RateLimitError
  remaining_above_limit units_below_one future_observation : RateLimitError
  allow_reason allow_wait wait_reason wait_zero fail_reason fail_wait : RateLimitError

unfoldable pub RateLimitScope-discrete : Discrete RateLimitScope
RateLimitScope-discrete = hlevel

unfoldable pub RateLimitReason-discrete : Discrete RateLimitReason
RateLimitReason-discrete = hlevel

instance abbrev pub comparable_scope : Comparable RateLimitScope
comparable_scope = record { dec = RateLimitScope-discrete }

instance abbrev pub comparable_reason : Comparable RateLimitReason
comparable_reason = record { dec = RateLimitReason-discrete }

-- Instants count microseconds.
pub record RateLimitSignal : Type 0 where
  pub provider : String
  pub scope : RateLimitScope
  pub observed_at : ℕ
  pub retry_after_seconds : Option ℕ
  pub reset_at : Option ℕ
  pub limit : Option ℕ
  pub remaining : Option ℕ
  pub source : RateLimitSignalSource

pub record RateLimitCheckRequest : Type 0 where
  pub provider : String
  pub scope : RateLimitScope
  pub now : ℕ
  pub units_requested : ℕ
  pub signals : List RateLimitSignal

pub record RateLimitDecision : Type 0 where
  pub action : RateLimitAction
  pub wait_seconds : ℕ
  pub reason : RateLimitReason

unfoldable pub validate_provider_string : String → Attempt RateLimitError (Unit {0})
validate_provider_string value = do
  require (not (Text.is_blank value)) provider_empty
  require (not (Text.is_wrapped value)) provider_wrapped
  require (not (Text.has_control value)) provider_control
  returns tt

abbrev no_earlier : Option ℕ → ℕ → Bool
no_earlier none observed = true
no_earlier (some reset) observed = leb observed reset

abbrev no_larger : Option ℕ → Option ℕ → Bool
no_larger (some remaining) (some limit) = leb remaining limit
no_larger (some remaining) none = true
no_larger none limit = true

-- `RateLimitSignal.__post_init__`
unfoldable pub check_signal : RateLimitSignal → Attempt RateLimitError (Unit {0})
unfolding validate_provider_string
check_signal sig = do
  validate_provider_string sig.provider
  require (no_earlier sig.reset_at sig.observed_at) reset_before_observed
  require (no_larger sig.remaining sig.limit) remaining_above_limit
  returns tt

-- `RateLimitCheckRequest.__post_init__`
unfoldable pub check_request : RateLimitCheckRequest → Attempt RateLimitError (Unit {0})
unfolding validate_provider_string
check_request r = do
  validate_provider_string r.provider
  require (leb 1 r.units_requested) units_below_one
  returns tt

-- `RateLimitDecision.__post_init__`
unfoldable pub decide :
    RateLimitAction → ℕ → RateLimitReason → Attempt RateLimitError RateLimitDecision
decide allow seconds reason = do
  require (reason == no_signals || reason == within_limit) allow_reason
  require (seconds == 0) allow_wait
  returns (record { action = allow; wait_seconds = seconds; reason = reason })
decide wait seconds reason = do
  require (reason == retry_after || reason == insufficient) wait_reason
  require (leb 1 seconds) wait_zero
  returns (record { action = wait; wait_seconds = seconds; reason = reason })
decide fail_closed seconds reason = do
  require (reason == exhausted) fail_reason
  require (seconds == 0) fail_wait
  returns (record { action = fail_closed; wait_seconds = seconds; reason = reason })

abbrev pub microseconds : ℕ
microseconds = 1000000

-- `math.ceil` of a difference in seconds, from microseconds; below zero it is `max(0, …)`, which the
-- subtraction on ℕ gives.
unfoldable pub ceil_seconds : ℕ → ℕ
ceil_seconds n = (n + 999999) / microseconds

unfoldable pub retry_wait : ℕ → RateLimitSignal → Option ℕ
unfolding ceil_seconds
retry_wait now sig = elim sig.retry_after_seconds [
  | none ↦ none
  | some seconds ↦ some (ceil_seconds (seconds * microseconds - (now - sig.observed_at)))
]

unfoldable pub reset_wait : ℕ → RateLimitSignal → Option ℕ
unfolding ceil_seconds
reset_wait now sig = elim sig.reset_at [
  | none ↦ none
  | some reset ↦ some (ceil_seconds (reset - now))
]

abbrev pub or_zero : Option ℕ → ℕ
or_zero none = 0
or_zero (some n) = n

abbrev pub is_some : Option ℕ → Bool
is_some none = false
is_some (some n) = true

unfoldable pub has_time_info : RateLimitSignal → Bool
has_time_info sig = is_some sig.retry_after_seconds || is_some sig.reset_at

unfoldable pub effective_wait : ℕ → RateLimitSignal → ℕ
unfolding retry_wait reset_wait
effective_wait now sig = max (or_zero (retry_wait now sig)) (or_zero (reset_wait now sig))

abbrev short : Option ℕ → ℕ → Bool
short none units = true
short (some remaining) units = remaining == 0 || ltb remaining units

-- What step 4 makes of one signal.
pub data Candidate : Type 0 where
  expired : Candidate
  waits : ℕ → Bool → Candidate
  fails : Candidate
  allows : Candidate

unfoldable pub candidate_of : ℕ → ℕ → RateLimitSignal → Candidate
unfolding has_time_info effective_wait
candidate_of now units sig =
    let w = effective_wait now sig in
    if has_time_info sig && w == 0
    then expired
    else (if leb 1 w
        then waits w (leb 1 (or_zero (retry_wait now sig)))
        else (if short sig.remaining units then fails else allows))

pub record Candidates : Type 0 where
  pub wait_candidates : List (ℕ × Bool)
  pub any_fail : Bool
  pub any_allow : Bool

abbrev add : Candidate → Candidates → Candidates
add expired cs = cs
add (waits w retry) cs = record cs { wait_candidates = (w, retry) ∷ cs.wait_candidates }
add fails cs = record cs { any_fail = true }
add allows cs = record cs { any_allow = true }

-- The loop of step 4. Of the lists of failing and allowing signals only emptiness is asked.
unfoldable pub candidates : ℕ → ℕ → List RateLimitSignal → Candidates
unfolding candidate_of
candidates now units [] = record { wait_candidates = []; any_fail = false; any_allow = false }
candidates now units (sig ∷ sigs) = add (candidate_of now units sig) (candidates now units sigs)

-- `max(w for w, _ in wait_candidates)`
unfoldable pub max_wait : List (ℕ × Bool) → ℕ
max_wait [] = 0
max_wait ((w, retry) ∷ ws) = max w (max_wait ws)

-- Step 5.
unfoldable pub aggregate : Candidates → Attempt RateLimitError RateLimitDecision
unfolding decide max_wait
aggregate cs =
    if any (λ c. true) cs.wait_candidates
    then decide wait (max_wait cs.wait_candidates)
        (if any (λ c. c.1) cs.wait_candidates then retry_after else insufficient)
    else (if cs.any_fail
        then decide fail_closed 0 exhausted
        else (if cs.any_allow then decide allow 0 within_limit else decide allow 0 no_signals))

-- Step 2.
unfoldable pub matches : RateLimitCheckRequest → RateLimitSignal → Bool
matches r sig =
    sig.provider == r.provider
    && (r.scope == unknown || (sig.scope == r.scope || sig.scope == unknown))

-- `RateLimitService.evaluate`
unfoldable pub evaluate : RateLimitCheckRequest → Attempt RateLimitError RateLimitDecision
unfolding matches candidates aggregate
evaluate r =
    let matching = keep (matches r) r.signals in
    if any (λ s. true) matching
    then (do
      require (not (any (λ sig. ltb r.now sig.observed_at) matching)) future_observation
      aggregate (candidates r.now r.units_requested matching))
    else decide allow 0 no_signals
