-- ===== src/RateLimiter/Examples.antt =====
-- Tests of `RateLimiter`, and its theorems at concrete requests.
use self_agent_id.Base.{
  ℕ, ◌+◌, ◌≤◌, ◌≡◌, refl, none, some, List, [], ◌∷◌, Text, codes, arith, get, set, to_lower,
  eq_text,
}
use self_agent_id.RateLimiter.{RateLimitConfig, new_rate_limiter, check, minute_ms, minute_limit}
use self_agent_id.RateLimiter.Window.{run, Kept, run-AtMost}
use self_agent_id.RateLimiter.Bounded.{after}
use self_agent_id.RateLimiter.Retry.{check-retry_after}

abbrev requests : List (ℕ × Text)
requests =
    (1000, codes "0xAb") ∷ (2000, codes "0xaB") ∷ (3000, codes "0xab") ∷ (4000, codes "0xcd") ∷ []

abbrev two_a_minute : RateLimitConfig
two_a_minute = record { per_minute = some 2; per_hour = some 50 }

-- The third request of the agent is refused, whatever the case of its address.
log_of_requests :
    (run requests (new_rate_limiter two_a_minute) []).1
    ≡ (codes "0xcd", 4000) ∷ (codes "0xab", 2000) ∷ (codes "0xab", 1000) ∷ []
unfolding run check new_rate_limiter get set to_lower eq_text
log_of_requests = refl

run-AtMost_example : Kept 2 50 (codes "0xab") (run requests (new_rate_limiter two_a_minute) []).1
run-AtMost_example = run-AtMost 2 50 requests (codes "0xab") (omega arith)

check-retry_after_example :
    (1 ≤ 57000)
    × (57000 ≤ minute_ms)
    × ((check (4000 + 57000) (codes "0xab") (check 4000 (codes "0xab") (after 2 requests)).1).0
        ≡ none)
unfolding run check new_rate_limiter get set to_lower eq_text
check-retry_after_example =
    check-retry_after 2 requests 4000 (codes "0xab")
      (record { error = minute_limit 2; retry_after_ms = 57000 }) (omega arith) (omega arith)
      (omega arith) refl
