-- ===== src/Replay/Window.antt =====
-- Replays inside the validity window: what a recorded fingerprint refuses, and until when.
use self_agent_id.Base.{
  le→ltb, get-set, eq_text_iff, get-set_self, length-set-le, eq_text, get-retain, to_lower,
  Bool-cases, lt→ltb, length-retain-le, Distinct, All, ℕ, ◌+◌, ◌≤◌, ◌<◌, ◌≡◌, refl, ap, Bool, true,
  false, some, List, [], ◌∷◌, Text, length, get, retain, arith, inl, inr,
}
use self_agent_id.Base.Int.{ℤ, pos, add_ℕ}
use mathlib.Core.Path.{subst}
use self_agent_id.Replay.{
  ReplayCache, is_live, is_replay, prune_replay_cache, check_and_record_replay, replay_key,
}
use self_agent_id.Replay.Evict.{check_and_record_replay-IsValid, prune_small}

-- A call of `checkAndRecordReplay`.
pub record Attempt : Type 0 where
  pub now : ℕ
  pub signature : Text
  pub message : Text
  pub ts : ℤ

-- The fingerprint `k` is held until `until`.
abbrev pub Holds : Text → ℕ → ReplayCache → Type 0
Holds k until cache = get k cache ≡ some (record { expires_at = until })

-- The calls come before `until`.
abbrev pub Before : ℕ → List Attempt → Type 0
Before until = All (λ a. a.now < until)

module _ (max_entries max_age : ℕ) where
  abbrev pub attempt : Attempt → ReplayCache → Bool × ReplayCache
  attempt a = check_and_record_replay max_entries max_age a.now a.signature a.message a.ts

  unfoldable pub attempts : List Attempt → ReplayCache → ReplayCache
  attempts [] cache = cache
  attempts (a ∷ rest) cache = attempts rest (attempt a cache).1

  prune-Holds :
      (k : Text) (until now : ℕ) (cache : ReplayCache)
      → Distinct cache
      → length cache ≤ max_entries
      → now < until
      → Holds k until cache
      → Holds k until (prune_replay_cache max_entries now cache)
  prune-Holds k until now cache d small early h =
      rw
        (
          prune_small max_entries now cache (omega (arith, length-retain-le (is_live now) cache)),
          get-retain (is_live now) k (record { expires_at = until }) cache d h,
          lt→ltb now until early,
        )
        refl

  is_replay_of_Holds :
      (k : Text) (until now : ℕ) (cache : ReplayCache)
      → now < until
      → Holds k until cache
      → is_replay now (get k cache) ≡ true
  is_replay_of_Holds k until now cache early h = rw h (lt→ltb now until early)

  attempt-Holds :
      (k : Text) (until : ℕ) (a : Attempt) (cache : ReplayCache)
      → Distinct cache
      → length cache ≤ max_entries
      → a.now < until
      → Holds k until cache
      → Holds k until (attempt a cache).1
  unfolding check_and_record_replay
  attempt-Holds k until a cache d small early h =
      let pruned = prune_replay_cache max_entries a.now cache in
      let key = replay_key a.signature a.message in
      let kept = prune-Holds k until a.now cache d small early h in
      elim (Bool-cases (is_replay a.now (get key pruned))) [
        | inl seen ↦ rw seen kept
        | inr new ↦ elim (Bool-cases (eq_text key k)) [
          | inl same ↦
              let e = (eq_text_iff key k).0 same in
              absurd (ground (arith, is_replay_of_Holds key until a.now pruned early (rw e kept)))
          | inr other ↦
              rw new
                (rw (get-set key k (record { expires_at = add_ℕ a.ts max_age }) pruned, other) kept)
        ]
      ]

  length-attempt-le :
      (a : Attempt) (cache : ReplayCache)
      → length cache ≤ max_entries
      → length (attempt a cache).1 ≤ length cache + 1
  unfolding check_and_record_replay
  length-attempt-le a cache small =
      let key = replay_key a.signature a.message in
      let live = retain (is_live a.now) cache in
      rw
        (prune_small max_entries a.now cache
          (omega (arith, length-retain-le (is_live a.now) cache)))
        (ground (
          arith,
          length-retain-le (is_live a.now) cache,
          length-set-le key (record { expires_at = add_ℕ a.ts max_age }) live,
        ))

  attempt-Distinct :
      (a : Attempt) (cache : ReplayCache)
      → Distinct cache
      → length cache ≤ max_entries
      → Distinct (attempt a cache).1
  attempt-Distinct a cache d small =
      (check_and_record_replay-IsValid max_entries max_age a.now a.signature a.message a.ts cache
        (record { distinct = d; bounded = omega arith })).distinct

  attempts-Holds :
      (k : Text) (until : ℕ) (rest : List Attempt) (cache : ReplayCache)
      → Distinct cache
      → length cache + length rest ≤ max_entries
      → Before until rest
      → Holds k until cache
      → Distinct (attempts rest cache)
        × (length (attempts rest cache) ≤ max_entries)
        × Holds k until (attempts rest cache)
  unfolding attempts
  attempts-Holds k until [] cache d small early h = (d, omega arith, h)
  attempts-Holds k until (a ∷ rest) cache d small (soon, early) h =
      attempts-Holds k until rest (attempt a cache).1 (attempt-Distinct a cache d (omega arith))
        (omega (arith, length-attempt-le a cache (omega arith))) early
        (attempt-Holds k until a cache d (omega arith) soon h)

  -- A recorded request holds its fingerprint until `ts + maxAge`.
  attempt_recorded :
      (a : Attempt) (cache : ReplayCache)
      → (attempt a cache).0 ≡ false
      → Holds (replay_key a.signature a.message) (add_ℕ a.ts max_age) (attempt a cache).1
  unfolding check_and_record_replay
  attempt_recorded a cache fresh =
      let key = replay_key a.signature a.message in
      let pruned = prune_replay_cache max_entries a.now cache in
      elim (Bool-cases (is_replay a.now (get key pruned))) [
        | inl seen ↦ absurd (ground arith)
        | inr new ↦ rw new (get-set_self key (record { expires_at = add_ℕ a.ts max_age }) pruned)
      ]

  refused_of_seen :
      (a : Attempt) (cache : ReplayCache)
      → is_replay a.now
          (get (replay_key a.signature a.message) (prune_replay_cache max_entries a.now cache))
        ≡ true
      → (attempt a cache).0 ≡ true
  unfolding check_and_record_replay
  refused_of_seen a cache seen = rw seen

  -- While its fingerprint is held, a request is refused.
  pub refused_of_Holds :
      (a : Attempt) (until : ℕ) (cache : ReplayCache)
      → Distinct cache
      → length cache ≤ max_entries
      → Holds (replay_key a.signature a.message) until cache
      → a.now < until
      → (attempt a cache).0 ≡ true
  refused_of_Holds a until cache d small held early =
      let key = replay_key a.signature a.message in
      refused_of_seen a cache (
        is_replay_of_Holds key until a.now (prune_replay_cache max_entries a.now cache) early
          (prune-Holds key until a.now cache d small early held))

  allowed_of_expired :
      (a : Attempt) (until : ℕ) (cache : ReplayCache)
      → Distinct cache
      → length cache ≤ max_entries
      → until ≤ a.now
      → Holds (replay_key a.signature a.message) until cache
      → (attempt a cache).0 ≡ false
  unfolding check_and_record_replay
  allowed_of_expired a until cache d small late h =
      rw
        (
          prune_small max_entries a.now cache
              (omega (arith, length-retain-le (is_live a.now) cache)),
          get-retain (is_live a.now) (replay_key a.signature a.message)
              (record { expires_at = until }) cache d h,
          le→ltb a.now until late,
        )
        refl

  -- A request that was recorded is refused as a replay at every later call before
  -- `ts + maxAge`, also if the letter case of its signature or message hash differs, and
  -- whatever other requests come in between, as long as the cache does not overflow.
  pub replay_refused :
      (a b : Attempt) (rest : List Attempt) (cache : ReplayCache)
      → Distinct cache
      → length cache + length rest + 1 ≤ max_entries
      → (attempt a cache).0 ≡ false
      → Before (add_ℕ a.ts max_age) rest
      → b.now < add_ℕ a.ts max_age
      → to_lower b.signature ≡ to_lower a.signature
      → to_lower b.message ≡ to_lower a.message
      → (attempt b (attempts rest (attempt a cache).1)).0 ≡ true
  unfolding replay_key
  replay_refused a b rest cache d small fresh early soon same_signature same_message =
      let until = add_ℕ a.ts max_age in
      let key = replay_key a.signature a.message in
      let (d', small', held) =
        attempts-Holds key until rest (attempt a cache).1 (attempt-Distinct a cache d (omega arith))
          (omega (arith, length-attempt-le a cache (omega arith))) early
          (attempt_recorded a cache fresh) in
      let cache' = attempts rest (attempt a cache).1 in
      let kept = prune-Holds key until b.now cache' d' small' soon held in
      let seen =
        is_replay_of_Holds key until b.now (prune_replay_cache max_entries b.now cache') soon
          kept in
      refused_of_seen b cache' (rw (same_signature, same_message) seen)

  -- At `ts + maxAge` a recorded fingerprint is forgotten.
  pub attempt_at_expiry :
      (t : ℕ) (a : Attempt) (cache : ReplayCache)
      → Distinct cache
      → length cache + 1 ≤ max_entries
      → a.ts ≡ pos t
      → (attempt a cache).0 ≡ false
      → (attempt (record a { now = t + max_age }) (attempt a cache).1).0 ≡ false
  unfolding add_ℕ
  attempt_at_expiry t a cache d small at fresh =
      let next = (attempt a cache).1 in
      let held = attempt_recorded a cache fresh in
      let d' = attempt-Distinct a cache d (omega arith) in
      let few : length next ≤ max_entries =
        omega (arith, length-attempt-le a cache (omega arith)) in
      allowed_of_expired (record a { now = t + max_age }) (t + max_age) next d' few (omega arith)
        (subst (λ u. Holds (replay_key a.signature a.message) u next) (ap (λ z. add_ℕ z max_age) at)
          held)
