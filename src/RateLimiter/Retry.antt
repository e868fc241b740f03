-- ===== src/RateLimiter/Retry.antt =====
-- What a refusal of `RateLimiter.check` promises: the wait that it asks for.
use self_agent_id.Base.{
  ℕ, ◌+◌, ◌-◌, ◌≤◌, ◌<◌, ◌≡◌, refl, ◌∙◌, inl, inr, none, some, List, [], ◌∷◌, Text, ltb, length,
  to_lower, arith, All, All-keep, eq_text_refl, uncons_of_pos,
}
use mathlib.Core.Path.{subst}
use self_agent_id.RateLimiter.{
  RateLimiter, new_rate_limiter, Limited, RateError, minute_ms, within, check, bucket_of, refusal,
  minute_limit,
}
use self_agent_id.RateLimiter.Window.{
  check-get, check-eq-none_iff, check_limits, pruned, within_again, Rising,
}
use self_agent_id.RateLimiter.Bounded.{
  past_pruned, few_pruned, within_oldest, IsBounded, run_per_hour, after, after-IsBounded,
  last_time,
}

-- A limiter with no limit per hour refuses for the minute only.
check_refused :
    (now : ℕ) (address : Text) (limiter : RateLimiter) (l : Limited)
    → limiter.per_hour ≡ 0
    → (check now address limiter).0 ≡ some l
    → (0 < limiter.per_minute)
      × (limiter.per_minute ≤ length (within now minute_ms (pruned now address limiter)))
      × (l
          ≡ refusal
              (minute_limit limiter.per_minute)
              now
              minute_ms
              (within now minute_ms (pruned now address limiter)))
unfolding check
check_refused now address limiter l e h = ground arith

refusal_wait :
    (error : RateError) (now w oldest : ℕ) (rest ts : List ℕ) (l : Limited)
    → l ≡ refusal error now w ts
    → ts ≡ oldest ∷ rest
    → now < oldest + w
    → l.retry_after_ms ≡ oldest + w - now
refusal_wait error now w oldest rest ts l same e young = rw (same, e) (omega arith)

-- With fewer than `m` times in the last minute the bucket has room.
room_at :
    (t s m : ℕ) (address : Text) (limiter : RateLimiter) (kept : List ℕ)
    → bucket_of address limiter ≡ kept
    → t ≡ s
    → length (within s minute_ms kept) < m
    → limiter.per_minute ≡ m
    → length (within t minute_ms (pruned t address limiter)) < limiter.per_minute
room_at t s m address limiter kept bucket at room limit =
    rw
      (
        within_again (bucket_of address limiter) t t minute_ms (omega arith) (omega arith),
        bucket,
        at,
        limit,
      )
      room

module _ (m last now : ℕ) (address : Text) (limiter : RateLimiter) (l : Limited) where
  wait_allows :
      0 < m
      → IsBounded m last limiter
      → last ≤ now
      → limiter.per_hour ≡ 0
      → (check now address limiter).0 ≡ some l
      → (1 ≤ l.retry_after_ms)
        × (l.retry_after_ms ≤ minute_ms)
        × ((check (now + l.retry_after_ms) address (check now address limiter).1).0 ≡ none)
  wait_allows positive bounded later no_hour refused =
      let kept = pruned now address limiter in
      let (some_limit, full, same) = check_refused now address limiter l no_hour refused in
      let (oldest, rest, e) = uncons_of_pos (within now minute_ms kept) (omega arith) in
      let (young, fewer) = within_oldest now minute_ms oldest rest kept e in
      let past : oldest ≤ now =
        (subst (All (λ t. t ≤ now)) e (
          All-keep (λ t. t ≤ now) (λ t. ltb now (t + minute_ms)) kept
            (past_pruned m last now address limiter later bounded positive))).0 in
      let wait : l.retry_after_ms ≡ oldest + minute_ms - now =
        refusal_wait _ now minute_ms oldest rest _ l same e young in
      let next = (check now address limiter).1 in
      let bucket : bucket_of address next ≡ kept =
        rw
          (
            check-get now address limiter (to_lower address),
            refused,
            eq_text_refl (to_lower address),
          )
          refl in
      let t : ℕ = now + l.retry_after_ms in
      let room =
        room_at t (oldest + minute_ms) m address next kept bucket (omega arith)
          (omega
            (arith, few_pruned m last now address limiter later bounded positive now (omega arith)))
          ((check_limits now address limiter).0 ∙ bounded.limit) in
      (
        omega arith,
        omega arith,
        (check-eq-none_iff t address next).1
            (inr room, inl ((check_limits now address limiter).1 ∙ no_hour)),
      )

module _ (m : ℕ) (reqs : List (ℕ × Text)) (now : ℕ) (address : Text) (l : Limited) where
  -- An agent that is refused by a limiter with a limit per minute only, and waits for the
  -- `retryAfterMs` of the refusal, is let through by its next request: the wait is at least one
  -- millisecond and at most a minute. The clock must not run backwards.
  pub check-retry_after :
      0 < m
      → Rising 0 reqs
      → last_time 0 reqs ≤ now
      → (check now address (after m reqs)).0 ≡ some l
      → (1 ≤ l.retry_after_ms)
        × (l.retry_after_ms ≤ minute_ms)
        × ((check (now + l.retry_after_ms) address (check now address (after m reqs)).1).0 ≡ none)
  unfolding new_rate_limiter
  check-retry_after positive rising later refused =
      wait_allows m (last_time 0 reqs) now address (after m reqs) l positive
        (after-IsBounded m reqs positive rising) later (run_per_hour reqs _ []) refused
