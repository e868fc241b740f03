-- ===== src/Verifier/Verify/Shape.antt =====
-- What each step of `verify` has tested where it goes on, and what it leaves unchanged.
use self_agent_id.Base.{
  ℕ, ◌≤◌, ◌<◌, ◌≡◌, ◌⊎◌, inl, inr, true, false, ◌&&◌, Option, none, some, Text, ltb, if◌then◌else◌,
  eq_text, get, to_lower, arith, Option-cases,
}
use self_agent_id.RateLimiter.{check, RateLimiter}
use self_agent_id.Replay.{check_and_record_replay}
use self_agent_id.Verifier.{Verifier, VerificationResult, ChainStatus, Failure, AgentCredentials}
use self_agent_id.Verifier.Flow.{next, reply}
use self_agent_id.Verifier.Auth.{Signed, World, VerifyParams, signed, authenticate, identify}
use self_agent_id.Verifier.Chain.{
  guard_replay, read_chain, cached_status, cached_provider, sybil_failure, credentials_failure,
  stop_if,
}
use self_agent_id.Verifier.Verify.{
  check_sybil, load_credentials, check_credentials, fetch_credentials, limit_rate, check_on_chain,
  check_provider, get_self_provider_address,
}

-- A step leaves the settings and the rate limiter alone.
abbrev pub SameLimits : Verifier → Verifier → Type 0
SameLimits v u = (u.settings ≡ v.settings) × (u.rate_limiter ≡ v.rate_limiter)

-- It leaves the cached provider address alone too.
abbrev pub Same : Verifier → Verifier → Type 0
Same v u =
    (u.settings ≡ v.settings)
    × (u.rate_limiter ≡ v.rate_limiter)
    × (u.self_provider_cache ≡ v.self_provider_cache)

pub stop_if-next :
    (f : Option Failure) (base : VerificationResult) (v : Verifier) {a : Unit {0}} {u : Verifier}
    → stop_if f base v ≡ next a u
    → (f ≡ none) × (u ≡ v)
stop_if-next f base v h = ground arith

pub identify-next :
    (w : World) (params : VerifyParams) (v : Verifier) {s : Signed} {u : Verifier}
    → identify w params v ≡ next s u
    → (authenticate w v.settings.max_age_ms params ≡ signed s) × (u ≡ v)
unfolding identify
identify-next w params v h = ground arith

pub guard_replay-next :
    (now : ℕ) (signature : Text) (s : Signed) (v : Verifier) {a : Unit {0}} {u : Verifier}
    → guard_replay now signature s v ≡ next a u
    → (v.settings.enable_replay_protection ≡ true
        → (check_and_record_replay v.settings.replay_cache_max_entries v.settings.max_age_ms now
            signature s.message s.ts v.replay_cache).0
          ≡ false)
      × (u.cache ≡ v.cache)
      × Same v u
unfolding guard_replay
guard_replay-next now signature s v h = ground arith

pub check_on_chain-next :
    (w : World) (key : Text) (v : Verifier) {status : ChainStatus} {u : Verifier}
    → check_on_chain w key v ≡ next status u
    → ((cached_status w.clock.cached (get key v.cache) ≡ some status)
        ⊎ (read_chain w.registry v.settings key ≡ some status))
      × Same v u
unfolding check_on_chain
check_on_chain-next w key v h = ground arith

provider_found :
    (w : World) (v : Verifier) (address : Text)
    → (get_self_provider_address w v).0 ≡ some address
    → (cached_provider w.clock.provider_cached v.self_provider_cache ≡ some address)
      ⊎ (w.registry.self_proof_provider ≡ some address)
unfolding get_self_provider_address
provider_found w v address h = ground arith

pub check_provider-next :
    (w : World) (base : VerificationResult) (status : ChainStatus) (v : Verifier) {a : Unit {0}}
    {u : Verifier}
    → check_provider w base status v ≡ next a u
    → (v.settings.require_self_provider ≡ true
        → 0 < status.agent_id
        → (address : Text) × ((cached_provider w.clock.provider_cached v.self_provider_cache
              ≡ some address)
            ⊎ (w.registry.self_proof_provider ≡ some address))
          × (eq_text (to_lower status.provider_address) (to_lower address) ≡ true))
      × SameLimits v u
unfolding check_provider
check_provider-next w base status v h = (
  λ needed known. elim (Option-cases (get_self_provider_address w v).0) [
    | inl failed ↦ absurd (ground arith)
    | inr (address, found) ↦ (address, provider_found w v address found, ground arith)
  ],
  ground arith,
)

pub limit_rate-next :
    (now : ℕ) (address : Text) (base : VerificationResult) (v : Verifier) {a : Unit {0}}
    {u : Verifier}
    → limit_rate now address base v ≡ next a u
    → (limiter : RateLimiter) → v.rate_limiter ≡ some limiter
    → (check now address limiter).0 ≡ none
unfolding limit_rate
limit_rate-next now address base v h limiter e = ground arith

-- A result that a step returns early is not valid, if the report that it is made from is not.
pub identify-reply :
    (w : World) (params : VerifyParams) (v : Verifier) {r : VerificationResult} {u : Verifier}
    → identify w params v ≡ reply r u
    → r.valid ≡ false
unfolding identify
identify-reply w params v h = ground arith

pub guard_replay-reply :
    (now : ℕ) (signature : Text) (s : Signed) (v : Verifier) {r : VerificationResult} {u : Verifier}
    → guard_replay now signature s v ≡ reply r u
    → r.valid ≡ false
unfolding guard_replay
guard_replay-reply now signature s v h = ground arith

pub check_on_chain-reply :
    (w : World) (key : Text) (v : Verifier) {r : VerificationResult} {u : Verifier}
    → check_on_chain w key v ≡ reply r u
    → r.valid ≡ false
unfolding check_on_chain
check_on_chain-reply w key v h = ground arith

pub stop_if-reply :
    (f : Option Failure) (base : VerificationResult) (v : Verifier) {r : VerificationResult}
    {u : Verifier}
    → base.valid ≡ false
    → stop_if f base v ≡ reply r u
    → r.valid ≡ false
stop_if-reply f base v e h = ground arith

pub check_provider-reply :
    (w : World) (base : VerificationResult) (status : ChainStatus) (v : Verifier)
    {r : VerificationResult} {u : Verifier}
    → base.valid ≡ false
    → check_provider w base status v ≡ reply r u
    → r.valid ≡ false
unfolding check_provider
check_provider-reply w base status v e h = ground arith

pub limit_rate-reply :
    (now : ℕ) (address : Text) (base : VerificationResult) (v : Verifier) {r : VerificationResult}
    {u : Verifier}
    → base.valid ≡ false
    → limit_rate now address base v ≡ reply r u
    → r.valid ≡ false
unfolding limit_rate
limit_rate-reply now address base v e h = ground arith

pub check_sybil-reply :
    (w : World) (base : VerificationResult) (status : ChainStatus) (v : Verifier)
    {r : VerificationResult} {u : Verifier}
    → base.valid ≡ false
    → check_sybil w base status v ≡ reply r u
    → r.valid ≡ false
unfolding check_sybil
check_sybil-reply w base status v e h = stop_if-reply (sybil_failure v.settings status) base v e h

pub load_credentials-reply :
    (w : World) (status : ChainStatus) (v : Verifier) {r : VerificationResult} {u : Verifier}
    → load_credentials w status v ≡ reply r u
    → r.valid ≡ false
unfolding load_credentials
load_credentials-reply w status v h = cc

pub check_credentials-reply :
    (w : World) (base : VerificationResult) (v : Verifier) {r : VerificationResult} {u : Verifier}
    → base.valid ≡ false
    → check_credentials w base v ≡ reply r u
    → r.valid ≡ false
unfolding check_credentials
check_credentials-reply w base v e h =
    stop_if-reply (credentials_failure v.settings base.credentials) base v e h

pub check_sybil-next :
    (w : World) (base : VerificationResult) (status : ChainStatus) (v : Verifier) {a : Unit {0}}
    {u : Verifier}
    → check_sybil w base status v ≡ next a u
    → (0 < v.settings.max_agents_per_human → status.agent_count ≤ v.settings.max_agents_per_human)
      × (u ≡ v)
unfolding check_sybil sybil_failure
check_sybil-next w base status v h = ground arith

pub load_credentials-next :
    (w : World) (status : ChainStatus) (v : Verifier) {c : Option AgentCredentials} {u : Verifier}
    → load_credentials w status v ≡ next c u
    → (c ≡ (
        if v.settings.include_credentials && ltb 0 status.agent_id
        then fetch_credentials w status.agent_id
        else none))
      × (u ≡ v)
unfolding load_credentials
load_credentials-next w status v h = ground arith

pub check_credentials-next :
    (w : World) (base : VerificationResult) (v : Verifier) {a : Unit {0}} {u : Verifier}
    → check_credentials w base v ≡ next a u
    → (credentials_failure v.settings base.credentials ≡ none) × (u ≡ v)
unfolding check_credentials
check_credentials-next w base v h =
    stop_if-next (credentials_failure v.settings base.credentials) base v h
