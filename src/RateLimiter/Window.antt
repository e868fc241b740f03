-- ===== src/RateLimiter/Window.antt =====
-- The sliding window of `RateLimiter.check` against the log of all requests that it let through.
use self_agent_id.Base.{
  ℕ, suc, ◌+◌, ◌≤◌, ◌<◌, ◌≡◌, refl, ◌∙◌, ◌⊎◌, inl, inr, ◌↔◌, false, Option, none, some, List, [],
  ◌∷◌, ◌++◌, Text, ltb, if◌then◌else◌, get_or_else, length, get, to_lower, arith, keep-append,
  length-append, get-set, eq_text, eq_text_iff, Bool-cases, Option-cases, is_some, eq_text_refl,
}
use mathlib.Core.Path.{subst}
use self_agent_id.RateLimiter.{
  RateLimiter, new_rate_limiter, Limited, minute_ms, hour_ms, within, check, check_minute,
  check_hour, bucket_of,
}

-- The times in a log, newest first, at which the agent with a lower-case address was let through.
abbrev pub times : Text → List (Text × ℕ) → List ℕ
times k [] = []
times k ((j, t) ∷ log) = if eq_text j k then t ∷ times k log else times k log

-- The log after a request: the result `none` lets it through.
abbrev pub note_result : Option Limited → ℕ → Text → List (Text × ℕ) → List (Text × ℕ)
note_result none now address log = (to_lower address, now) ∷ log
note_result (some limited) now address log = log

abbrev pub noted : ℕ → Text → RateLimiter → List (Text × ℕ) → List (Text × ℕ)
noted now address limiter log = note_result (check now address limiter).0 now address log

-- A sequence of requests, each a time and an address, oldest first, with the log of the ones
-- that are let through, newest first.
unfoldable pub run : List (ℕ × Text) → RateLimiter → List (Text × ℕ) → RateLimiter × List (Text × ℕ)
run [] limiter log = (limiter, log)
run ((now, address) ∷ rest) limiter log =
    run rest (check now address limiter).1 (noted now address limiter log)

-- The clock does not run backwards.
abbrev pub Rising : ℕ → List (ℕ × Text) → Type 0
Rising last [] = Unit
Rising last ((now, address) ∷ rest) = (last ≤ now) × Rising now rest

-- At each time in the list, newest first, at most `n` of the times up to it are younger than `w`.
abbrev pub AtMost : ℕ → ℕ → List ℕ → Type 0
AtMost n w [] = Unit
AtMost n w (t ∷ ts) = (length (within t w (t ∷ ts)) ≤ n) × AtMost n w ts

-- From `last` on, the bucket and the log have as many times in each window of up to an hour.
abbrev pub Counts : ℕ → List ℕ → List ℕ → Type 0
Counts last bucket seen =
    (now w : ℕ)
    → last ≤ now
    → w ≤ hour_ms
    → length (within now w bucket) ≡ length (within now w seen)

pub within_again :
    (ts : List ℕ) (before now w : ℕ)
    → before ≤ now
    → w ≤ hour_ms
    → within now w (within before hour_ms ts) ≡ within now w ts
within_again [] before now w h k = refl
within_again (t ∷ ts) before now w h k = ground (arith, within_again ts before now w h k)

Counts-prune :
    (last now : ℕ) (bucket seen : List ℕ)
    → last ≤ now
    → Counts last bucket seen
    → Counts now (within now hour_ms bucket) seen
Counts-prune last now bucket seen h c later w k l =
    rw (within_again bucket now later w k l) (c later w (omega arith) l)

Counts-record :
    (now : ℕ) (bucket seen : List ℕ)
    → Counts now bucket seen
    → Counts now (bucket ++ now ∷ []) (now ∷ seen)
Counts-record now bucket seen c later w k l =
    rw (keep-append (λ t. ltb later (t + w)) bucket (now ∷ [])) (
      ground (
        arith,
        c later w k l,
        length-append (within later w bucket) (now ∷ []),
        length-append (within later w bucket) [],
      ))

-- Each address that the log may hold has a bucket that counts like the log.
abbrev pub Tracks : ℕ → RateLimiter → List (Text × ℕ) → Type 0
Tracks last limiter log =
    (k : Text) → Counts last (get_or_else (get k limiter.buckets) []) (times k log)

module _ (now : ℕ) (address : Text) (limiter : RateLimiter) where
  abbrev pub pruned : List ℕ
  pruned = within now hour_ms (bucket_of address limiter)

  pub check-get :
      (k : Text)
      → get k (check now address limiter).1.buckets ≡ (
          if eq_text (to_lower address) k
          then some (if is_some (check now address limiter).0 then pruned else pruned ++ now ∷ [])
          else get k limiter.buckets)
  unfolding check
  check-get k = elim (Option-cases (check_minute now limiter.per_minute pruned)) [
    | inr (l, e) ↦ rw (e, check) (get-set (to_lower address) k pruned limiter.buckets)
    | inl e ↦ elim (Option-cases (check_hour now limiter.per_hour pruned)) [
      | inr (l, f) ↦ rw (e, f, check) (get-set (to_lower address) k pruned limiter.buckets)
      | inl f ↦ rw (e, f, check) (get-set (to_lower address) k (pruned ++ now ∷ []) limiter.buckets)
    ]
  ]

  pub check_limits :
      ((check now address limiter).1.per_minute ≡ limiter.per_minute)
      × ((check now address limiter).1.per_hour ≡ limiter.per_hour)
  unfolding check
  check_limits = ground arith

  -- The request is let through exactly when both windows have room.
  pub check-eq-none_iff : ((check now address limiter).0 ≡ none) ↔ (
      ((limiter.per_minute ≡ 0) ⊎ (length (within now minute_ms pruned) < limiter.per_minute))
      × ((limiter.per_hour ≡ 0) ⊎ (length pruned < limiter.per_hour)))
  unfolding check
  check-eq-none_iff = ground arith

length-within :
    (now w : ℕ) (ts : List ℕ) → length (within now w (now ∷ ts)) ≤ suc (length (within now w ts))
length-within now w ts = elim (Bool-cases (ltb now (now + w))) [
  | inl e ↦ rw e (omega arith)
  | inr e ↦ rw e (omega arith)
]

module _ (last now : ℕ) (address : Text) (limiter : RateLimiter) (log : List (Text × ℕ)) where
  Tracks-check_self :
      last ≤ now
      → Tracks last limiter log
      → Counts now
          (get_or_else (get (to_lower address) (check now address limiter).1.buckets) [])
          (times (to_lower address) (noted now address limiter log))
  Tracks-check_self h tracks =
      let seen = times (to_lower address) log in
      let kept =
        Counts-prune last now (bucket_of address limiter) seen h (tracks (to_lower address)) in
      elim (Option-cases (check now address limiter).0) [
        | inl allowed ↦
            rw (check-get now address limiter (to_lower address), allowed)
              (rw (eq_text_refl (to_lower address))
                (Counts-record now (pruned now address limiter) seen kept))
        | inr (l, refused) ↦
            rw (check-get now address limiter (to_lower address), refused)
              (rw (eq_text_refl (to_lower address)) kept)
      ]

  times_other :
      (k : Text)
      → eq_text (to_lower address) k ≡ false
      → times k (noted now address limiter log) ≡ times k log
  times_other k other = ground (arith)

  Tracks-check :
      last ≤ now
      → Tracks last limiter log
      → Tracks now (check now address limiter).1 (noted now address limiter log)
  Tracks-check h tracks k = elim (Bool-cases (eq_text (to_lower address) k)) [
    | inl same ↦
        let e = (eq_text_iff (to_lower address) k).0 same in
        subst
          (λ j.
            Counts now (get_or_else (get j (check now address limiter).1.buckets) [])
              (times j (noted now address limiter log)))
          e (Tracks-check_self h tracks)
    | inr other ↦
        rw (check-get now address limiter k, times_other k other)
          (rw other (λ later w a b. tracks k later w (omega arith) b))
  ]

  -- One request keeps the bound of a window `w` that the limiter tests with the limit `n`.
  AtMost-noted :
      (n w : ℕ)
      → w ≤ hour_ms
      → last ≤ now
      → Tracks last limiter log
      → ((check now address limiter).0 ≡ none
          → length (within now w (pruned now address limiter)) < n)
      → (k : Text) → AtMost n w (times k log)
      → AtMost n w (times k (noted now address limiter log))
  AtMost-noted n w small h tracks room k kept = elim (Option-cases (check now address limiter).0) [
    | inr (l, refused) ↦ rw refused kept
    | inl allowed ↦ elim (Bool-cases (eq_text (to_lower address) k)) [
      | inr other ↦ rw (times_other k other) kept
      | inl same ↦
          let e = (eq_text_iff (to_lower address) k).0 same in
          let counted : length (within now w (pruned now address limiter))
              ≡ length (within now w (times k log)) =
            rw (← e) (
              Counts-prune last now (bucket_of address limiter) (times (to_lower address) log) h
                (tracks (to_lower address)) now w (omega arith) small) in
          let few = room allowed in
          rw (allowed, same) (omega (arith, length-within now w (times k log)), kept)
    ]
  ]

-- The bounds that the limiter keeps for the agent with the lower-case address `k`.
abbrev pub Kept : ℕ → ℕ → Text → List (Text × ℕ) → Type 0
Kept per_minute per_hour k log =
    (0 < per_minute → AtMost per_minute minute_ms (times k log))
    × (0 < per_hour → AtMost per_hour hour_ms (times k log))

module _ (m h : ℕ) where
  run-Kept :
      (reqs : List (ℕ × Text)) (last : ℕ) (limiter : RateLimiter) (log : List (Text × ℕ))
      → limiter.per_minute ≡ m
      → limiter.per_hour ≡ h
      → Rising last reqs
      → Tracks last limiter log
      → (k : Text) → Kept m h k log
      → Kept m h k (run reqs limiter log).1
  unfolding run
  run-Kept [] last limiter log _ _ rising tracks k kept = kept
  run-Kept ((now, address) ∷ rest) last limiter log e f (later, rising) tracks k kept =
      let limits = check_limits now address limiter in
      run-Kept rest now (check now address limiter).1 (noted now address limiter log) (limits.0 ∙ e)
        (limits.1 ∙ f) rising (Tracks-check last now address limiter log later tracks) k
        (
          λ some_minutes.
              AtMost-noted last now address limiter log m minute_ms (omega arith) later tracks
                (λ allowed. omega (arith, ((check-eq-none_iff now address limiter).0 allowed).0)) k
                (kept.0 some_minutes),
          λ some_hours.
              AtMost-noted last now address limiter log h hour_ms (omega arith) later tracks
                (λ allowed.
                  rw
                    (within_again (bucket_of address limiter) now now hour_ms (omega arith)
                      (omega arith))
                    (omega (arith, ((check-eq-none_iff now address limiter).0 allowed).1)))
                k (kept.1 some_hours),
        )

-- A limiter made from a configuration never lets one agent through more often than the
-- configured number in any minute and in any hour: whatever the sequence of requests, if the
-- clock does not run backwards, then at each time that a request of the agent is let through,
-- at most that many of its accepted requests, this one included, are younger than the window.
pub run-AtMost :
    (per_minute per_hour : ℕ) (reqs : List (ℕ × Text)) (k : Text)
    → Rising 0 reqs
    → Kept per_minute per_hour k
        (run reqs
          (new_rate_limiter (record { per_minute = some per_minute; per_hour = some per_hour }))
          []).1
unfolding new_rate_limiter get
run-AtMost per_minute per_hour reqs k rising =
    run-Kept per_minute per_hour reqs 0 _ [] refl refl rising (λ j now w _ _. refl) k
      (λ _. tt, λ _. tt)
