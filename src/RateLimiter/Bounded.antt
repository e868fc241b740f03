-- ===== src/RateLimiter/Bounded.antt =====
-- How many times of the last minute the buckets of a `RateLimiter` hold, after any requests.
use self_agent_id.Base.{
  ℕ, ◌+◌, ◌≤◌, ◌<◌, ◌≡◌, refl, ◌∙◌, inl, inr, none, some, List, [], ◌∷◌, ◌++◌, Text, ltb,
  get_or_else, length, get, to_lower, arith, keep-append, length-append, eq_text, Bool-cases,
  Option-cases, All, All-keep, All-append, length-keep-le,
}
use self_agent_id.RateLimiter.{
  RateLimiter, new_rate_limiter, minute_ms, hour_ms, within, check, bucket_of,
}
use self_agent_id.RateLimiter.Window.{
  check-get, check-eq-none_iff, check_limits, pruned, within_again, Rising, run, noted,
}

-- As time goes on fewer times are younger than `w`.
pub within_later :
    (now later w : ℕ) (ts : List ℕ)
    → now ≤ later
    → length (within later w ts) ≤ length (within now w ts)
within_later now later w [] h = omega arith
within_later now later w (t ∷ ts) h = ground (arith, within_later now later w ts h)

-- Once the oldest of them is `w` old, strictly fewer are.
pub within_oldest :
    (now w oldest : ℕ) (rest ts : List ℕ)
    → within now w ts ≡ oldest ∷ rest
    → (now < oldest + w) × (length (within (oldest + w) w ts) < length (within now w ts))
within_oldest now w oldest rest [] h = absurd (ground arith)
within_oldest now w oldest rest (t ∷ ts) h = elim (Bool-cases (ltb now (t + w))) [
  | inr old ↦ let ih = within_oldest now w oldest rest ts (ground arith) in ground (arith, ih)
  | inl young ↦
      let e : t ≡ oldest = ground arith in ground (arith, within_later now (oldest + w) w ts)
]

abbrev pub times_of : Text → RateLimiter → List ℕ
times_of k limiter = get_or_else (get k limiter.buckets) []

-- At no time from `last` on does a bucket hold more than `m` times of the last minute, and none
-- of its times lies after `last`.
pub record IsBounded (m last : ℕ) (limiter : RateLimiter) : Type 0 where
  pub limit : limiter.per_minute ≡ m
  pub few :
      (k : Text) (now : ℕ) → last ≤ now → length (within now minute_ms (times_of k limiter)) ≤ m
  pub past : (k : Text) → All (λ t. t ≤ last) (times_of k limiter)

All-le_later :
    (last now : ℕ) (ts : List ℕ) → last ≤ now → All (λ t. t ≤ last) ts → All (λ t. t ≤ now) ts
All-le_later last now [] h a = tt
All-le_later last now (t ∷ ts) h (p, a) = (omega arith, All-le_later last now ts h a)

module _ (m last now : ℕ) (address : Text) (limiter : RateLimiter) (later : last ≤ now)
    (bounded : IsBounded m last limiter) (positive : 0 < m) where
  pub few_pruned : (t : ℕ) → now ≤ t → length (within t minute_ms (pruned now address limiter)) ≤ m
  few_pruned t h =
      rw (within_again (bucket_of address limiter) now t minute_ms h (omega arith))
        (bounded.few (to_lower address) t (omega arith))

  few_recorded :
      (check now address limiter).0 ≡ none
      → (t : ℕ) → now ≤ t
      → length (within t minute_ms (pruned now address limiter ++ now ∷ [])) ≤ m
  few_recorded allowed t h =
      let room = ((check-eq-none_iff now address limiter).0 allowed).0 in
      rw
        (
          keep-append (λ s. ltb t (s + minute_ms)) (pruned now address limiter) (now ∷ []),
          length-append (within t minute_ms (pruned now address limiter))
              (within t minute_ms (now ∷ [])),
        )
        (omega (
          arith,
          bounded.limit,
          within_later now t minute_ms (pruned now address limiter) h,
          length-keep-le (λ s. ltb t (s + minute_ms)) (now ∷ []),
        ))

  pub past_pruned : All (λ t. t ≤ now) (pruned now address limiter)
  past_pruned =
      All-keep (λ t. t ≤ now) (λ t. ltb now (t + hour_ms)) (bucket_of address limiter)
        (All-le_later last now (bucket_of address limiter) later (bounded.past (to_lower address)))

  past_recorded : All (λ t. t ≤ now) (pruned now address limiter ++ now ∷ [])
  past_recorded =
      All-append (λ t. t ≤ now) (pruned now address limiter) (now ∷ []) past_pruned
        (omega arith, tt)

  -- What holds of the bucket that a call leaves and of all others holds of each.
  times_of-check :
      (P : List ℕ → Type 0)
      → P (pruned now address limiter)
      → ((check now address limiter).0 ≡ none → P (pruned now address limiter ++ now ∷ []))
      → (k : Text) → P (times_of k limiter)
      → P (times_of k (check now address limiter).1)
  times_of-check P cut recorded k others =
      rw (check-get now address limiter k) (elim (Bool-cases (eq_text (to_lower address) k)) [
        | inr other ↦ rw other others
        | inl same ↦ elim (Option-cases (check now address limiter).0) [
          | inl allowed ↦ rw (same, allowed) (recorded allowed)
          | inr (l, refused) ↦ rw (same, refused) cut
        ]
      ])

  pub check-IsBounded : IsBounded m now (check now address limiter).1
  check-IsBounded = record {
    limit = (check_limits now address limiter).0 ∙ bounded.limit;
    few = λ k t h.
        times_of-check (λ ts. length (within t minute_ms ts) ≤ m) (few_pruned t h)
          (λ allowed. few_recorded allowed t h) k (bounded.few k t (omega arith));
    past = λ k.
        times_of-check (λ ts. All (λ t. t ≤ now) ts) past_pruned (λ _. past_recorded) k
          (All-le_later last now (times_of k limiter) later (bounded.past k));
  }

-- The time of the last request.
abbrev pub last_time : ℕ → List (ℕ × Text) → ℕ
last_time last [] = last
last_time last ((now, address) ∷ rest) = last_time now rest

pub run-IsBounded :
    (m : ℕ) (reqs : List (ℕ × Text)) (last : ℕ) (limiter : RateLimiter) (log : List (Text × ℕ))
    → 0 < m
    → Rising last reqs
    → IsBounded m last limiter
    → IsBounded m (last_time last reqs) (run reqs limiter log).0
unfolding run
run-IsBounded m [] last limiter log positive rising bounded = bounded
run-IsBounded m ((now, address) ∷ rest) last limiter log positive (later, rising) bounded =
    run-IsBounded m rest now (check now address limiter).1 (noted now address limiter log) positive
      rising (check-IsBounded m last now address limiter later bounded positive)

pub run_per_hour :
    (reqs : List (ℕ × Text)) (limiter : RateLimiter) (log : List (Text × ℕ))
    → (run reqs limiter log).0.per_hour ≡ limiter.per_hour
unfolding run
run_per_hour [] limiter log = refl
run_per_hour ((now, address) ∷ rest) limiter log =
    run_per_hour rest (check now address limiter).1 (noted now address limiter log)
    ∙ (check_limits now address limiter).1

-- The limiter of `rateLimit({ perMinute: m })` after some requests.
abbrev pub after : ℕ → List (ℕ × Text) → RateLimiter
after m reqs = (run reqs (new_rate_limiter (record { per_minute = some m; per_hour = none })) []).0

pub after-IsBounded :
    (m : ℕ) (reqs : List (ℕ × Text))
    → 0 < m
    → Rising 0 reqs
    → IsBounded m (last_time 0 reqs) (after m reqs)
unfolding new_rate_limiter get
after-IsBounded m reqs positive rising =
    run-IsBounded m reqs 0 (new_rate_limiter (record { per_minute = some m; per_hour = none })) []
      positive rising (record { limit = refl; few = λ k now h. omega arith; past = λ k. tt })
