-- ===== src/RateLimiter.antt =====
-- typescript-sdk/src/SelfAgentVerifier.ts, class `RateLimiter`: the sliding window per agent
-- address. Times are milliseconds. `t > now - w` is written `now < t + w`.
pub mod Window
pub mod Bounded
pub mod Retry
mod Examples
use self_agent_id.Base.{
  ℕ, ◌+◌, ◌-◌, max, Bool, ◌&&◌, Option, none, some, List, [], ◌∷◌, ◌++◌, Text, ltb, leb,
  if◌then◌else◌, get_or_else, keep, length, head_or, get, set, to_lower,
}

pub record RateLimitConfig : Type 0 where
  pub per_minute : Option ℕ
  pub per_hour : Option ℕ

pub record RateLimiter : Type 0 where
  pub per_minute : ℕ
  pub per_hour : ℕ
  pub buckets : List (Text × List ℕ)

-- The two messages of a refusal, with the limit that they print.
pub data RateError : Type 0 where
  minute_limit hour_limit : ℕ → RateError

pub record Limited : Type 0 where
  pub error : RateError
  pub retry_after_ms : ℕ

abbrev pub minute_ms : ℕ
minute_ms = 60000

abbrev pub hour_ms : ℕ
hour_ms = 3600000

unfoldable pub new_rate_limiter : RateLimitConfig → RateLimiter
new_rate_limiter config = record {
  per_minute = get_or_else config.per_minute 0;
  per_hour = get_or_else config.per_hour 0;
  buckets = [];
}

-- The timestamps that are younger than `w` at `now`.
abbrev pub within : ℕ → ℕ → List ℕ → List ℕ
within now w = keep (λ t. ltb now (t + w))

abbrev pub refusal : RateError → ℕ → ℕ → List ℕ → Limited
refusal error now w seen = record {
  error = error;
  retry_after_ms = max 1 (head_or 0 seen + w - now);
}

unfoldable pub check_minute : ℕ → ℕ → List ℕ → Option Limited
check_minute now limit timestamps =
    let recent = within now minute_ms timestamps in
    if ltb 0 limit && leb limit (length recent)
    then some (refusal (minute_limit limit) now minute_ms recent)
    else none

unfoldable pub check_hour : ℕ → ℕ → List ℕ → Option Limited
check_hour now limit timestamps =
    if ltb 0 limit && leb limit (length timestamps)
    then some (refusal (hour_limit limit) now hour_ms timestamps)
    else none

-- The bucket of an address; a missing one is created empty.
abbrev pub bucket_of : Text → RateLimiter → List ℕ
bucket_of address limiter = get_or_else (get (to_lower address) limiter.buckets) []

abbrev pub store : Text → List ℕ → RateLimiter → RateLimiter
store address timestamps limiter = record limiter {
  buckets = set (to_lower address) timestamps limiter.buckets;
}

-- `none` lets the request through and records it; a refusal leaves the pruned bucket.
unfoldable pub check : ℕ → Text → RateLimiter → Option Limited × RateLimiter
unfolding check_minute check_hour
check now address limiter =
    let timestamps = within now hour_ms (bucket_of address limiter) in
    elim (check_minute now limiter.per_minute timestamps) [
      | some limited ↦ (some limited, store address timestamps limiter)
      | none ↦ elim (check_hour now limiter.per_hour timestamps) [
        | some limited ↦ (some limited, store address timestamps limiter)
        | none ↦ (none, store address (timestamps ++ now ∷ []) limiter)
      ]
    ]
