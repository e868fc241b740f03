-- ===== src/ReplayGuard/Window.antt =====
-- How long the replay guard refuses a request.
use self_agent_id.Base.{
  ℕ, ◌+◌, ◌≤◌, ◌<◌, ◌≡◌, refl, true, none, some, List, [], ◌∷◌, Text, max, arith, get_or_else,
  to_lower,
}
use self_agent_id.Base.Int.{ℤ, add_ℕ}
use self_agent_id.Signing.{Ethers, UrlParser, parse_int}
use self_agent_id.SecurityStore.{Store, set_if_absent_with_ttl}
use self_agent_id.SecurityStore.Once.{Call, Before, IsValid, perform_all, inserted_once}
use self_agent_id.ReplayGuard.{
  GuardParams, ok, replay_detected, check_and_record_replay, guard_key, guard_ttl,
  default_guard_age_ms, guard_answer,
}

Before-mono : (a b : ℕ) (cs : List Call) → a ≤ b → Before a cs → Before b cs
Before-mono a b [] h k = tt
Before-mono a b (c ∷ cs) h (early, k) = (omega arith, Before-mono a b cs h k)

-- The last moment at which the request counts as fresh.
abbrev pub fresh_until : ℤ → GuardParams → ℕ
fresh_until ts params = add_ℕ ts (get_or_else params.max_age_ms default_guard_age_ms)

module _ (ethers : Ethers) (parser : UrlParser) where
  guard_key_lower :
      (params : GuardParams) (signature : Text)
      → to_lower signature ≡ to_lower params.signature
      → guard_key ethers parser (record params { signature = signature })
        ≡ guard_key ethers parser params
  unfolding guard_key
  guard_key_lower params signature same = rw same refl

  guard-eq :
      {S : Type 0} (now stored : ℕ) (params : GuardParams) (ts : ℤ) (store : Store S)
      → parse_int params.timestamp ≡ some ts
      → check_and_record_replay ethers parser now stored params store ≡ (
        guard_answer ethers parser
            (set_if_absent_with_ttl stored
              (guard_key ethers parser params)
              (guard_ttl ethers parser now ts params)
              store).0,
        (set_if_absent_with_ttl stored
            (guard_key ethers parser params)
            (guard_ttl ethers parser now ts params)
            store).1,
      )
  unfolding check_and_record_replay
  guard-eq now stored params ts store e = rw (e, check_and_record_replay) refl

  guard-ok :
      {S : Type 0} (now stored : ℕ) (params : GuardParams) (ts : ℤ) (store : Store S)
      → parse_int params.timestamp ≡ some ts
      → (check_and_record_replay ethers parser now stored params store).0 ≡ ok
      → (set_if_absent_with_ttl stored
          (guard_key ethers parser params)
          (guard_ttl ethers parser now ts params)
          store).0
        ≡ true
  unfolding check_and_record_replay
  guard-ok now stored params ts store e h = ground arith

  -- Without Upstash, a request that the guard has let through is refused as a replay while it
  -- is fresh, that is before its timestamp plus the maximum age: whatever calls of the store come
  -- between before that time, whatever the case of the letters of its signature, and where the
  -- store reads the clock no earlier than the guard.
  pub guard_refuses :
      {S : Type 0} (now stored now2 stored2 : ℕ) (params : GuardParams) (signature : Text) (ts : ℤ)
      (cs : List Call) (store : Store S)
      → store.upstash ≡ none
      → IsValid store.memory
      → parse_int params.timestamp ≡ some ts
      → to_lower signature ≡ to_lower params.signature
      → now ≤ stored
      → (check_and_record_replay ethers parser now stored params store).0 ≡ ok
      → Before (fresh_until ts params) cs
      → stored2 < fresh_until ts params
      → (check_and_record_replay ethers parser now2 stored2
          (record params { signature = signature })
          (perform_all cs (check_and_record_replay ethers parser now stored params store).1)).0
        ≡ replay_detected
  guard_refuses now stored now2 stored2 params signature ts cs store off h e same rising first early
        soon =
      let ttl = guard_ttl ethers parser now ts params in
      let long : fresh_until ts params ≤ stored + max 1 ttl = omega arith in
      let refused =
        inserted_once stored stored2 (guard_key ethers parser params) ttl
          (guard_ttl ethers parser now2 ts params) cs store off h
          (guard-ok now stored params ts store e first)
          (Before-mono (fresh_until ts params) (stored + max 1 ttl) cs long early) (omega arith) in
      rw
        (
          guard-eq now stored params ts store e,
          guard-eq now2 stored2 (record params { signature = signature }) ts
              (perform_all cs
                (set_if_absent_with_ttl stored (guard_key ethers parser params) ttl store).1)
              e,
          guard_key_lower params signature same,
          refused,
        )
        refl
