-- ===== src/Verifier/Verify.antt =====
-- typescript-sdk/src/SelfAgentVerifier.ts: `verify` as the sequence of its steps.
pub mod Shape
pub mod Judged
pub mod Facts
pub mod Accepts
use self_agent_id.Base.{
  ℕ, ◌+◌, ◌*◌, Bool, true, false, ◌&&◌, Option, none, some, List, [], Text, ltb, if◌then◌else◌,
  eq_text, get, set, to_lower,
}
use mathlib.Core.Option
use self_agent_id.RateLimiter.{Limited, check, RateLimiter}
use self_agent_id.Verifier.{
  Verifier, VerificationResult, ChainStatus, ProviderEntry, AgentCredentials, provider_rpc_error,
  provider_mismatch, rate_limited,
}
use self_agent_id.Verifier.Flow.{Flow, next, reply, raise, M, ◌>>=◌, ◌>>◌}
use self_agent_id.Verifier.Auth.{Signed, World, VerifyParams, fail, identify}
use self_agent_id.Verifier.Chain.{
  guard_replay, read_chain, cached_status, cached_provider, raw_or_default, report, status_failure,
  sybil_failure, credentials_failure, stop_if,
}

-- Step 11.
unfoldable pub limit_rate : ℕ → Text → VerificationResult → M (Unit {0})
limit_rate now address base v = elim v.rate_limiter [
  | none ↦ next tt v
  | some limiter ↦
      let (limited, limiter') = check now address limiter in
      let v' = record v { rate_limiter = some limiter' } in
      elim limited [
        | none ↦ next tt v'
        | some l ↦
            reply
              (record (fail (rate_limited l.error) base) { retry_after_ms = some l.retry_after_ms })
              v'
      ]
]

module _ (w : World) where
  open w use {registry, clock}

  unfoldable pub check_on_chain : Text → M ChainStatus
  check_on_chain key v = elim (cached_status clock.cached (get key v.cache)) [
    | some status ↦ next status v
    | none ↦ elim (read_chain registry v.settings key) [
      | none ↦ raise v
      | some status ↦ next status (record v {
        cache =
            set key
              (record { status = status; expires_at = clock.stored + v.settings.cache_ttl_ms })
              v.cache;
      })
    ]
  ]

  -- The provider's address, or `none` where the call of the registry is rejected.
  unfoldable pub get_self_provider_address : Verifier → Option Text × Verifier
  get_self_provider_address v = elim (cached_provider clock.provider_cached v.self_provider_cache) [
    | some address ↦ (some address, v)
    | none ↦ elim registry.self_proof_provider [
      | none ↦ (none, v)
      | some address ↦ (
        some address,
        record v {
          self_provider_cache = some (record {
            address = address;
            expires_at = clock.provider_stored + v.settings.cache_ttl_ms * 12;
          });
        },
      )
    ]
  ]

  -- Step 7.
  unfoldable pub check_provider : VerificationResult → ChainStatus → M (Unit {0})
  unfolding get_self_provider_address
  check_provider base status v =
      if v.settings.require_self_provider && ltb 0 status.agent_id
      then (let (found, v') = get_self_provider_address v in
          elim found [
            | none ↦ reply (fail provider_rpc_error base) v'
            | some address ↦
                if eq_text (to_lower status.provider_address) (to_lower address)
                then next tt v'
                else reply (fail provider_mismatch base) v'
          ])
      else next tt v

  -- Step 8.
  unfoldable pub check_sybil : VerificationResult → ChainStatus → M (Unit {0})
  check_sybil base status v = stop_if (sybil_failure v.settings status) base v

  unfoldable pub fetch_credentials : ℕ → Option AgentCredentials
  fetch_credentials agent_id = Option.map raw_or_default (registry.get_agent_credentials agent_id)

  -- Step 9.
  unfoldable pub load_credentials : ChainStatus → M (Option AgentCredentials)
  unfolding fetch_credentials
  load_credentials status v =
      next
        (if v.settings.include_credentials && ltb 0 status.agent_id
          then fetch_credentials status.agent_id
          else none)
        v

  -- Step 10.
  unfoldable pub check_credentials : VerificationResult → M (Unit {0})
  check_credentials base v = stop_if (credentials_failure v.settings base.credentials) base v

  abbrev pub with_credentials : Option AgentCredentials → VerificationResult → VerificationResult
  with_credentials credentials base = record base { credentials = credentials }

  abbrev pub accept : VerificationResult → M VerificationResult
  accept base v = next (record base { valid = true }) v

  -- Steps 8 to 11, from the status that was found on the chain.
  unfoldable pub judge : Signed → ChainStatus → M VerificationResult
  judge s status = do
    let base = report clock.expiry s status
    check_sybil base status
    credentials ← load_credentials status
    let full = with_credentials credentials base
    check_credentials full
    limit_rate clock.limited s.address full
    accept full

  unfoldable pub verify_steps : VerifyParams → M VerificationResult
  verify_steps params = do
    s ← identify w params
    guard_replay clock.replay params.signature s
    status ← check_on_chain s.key
    stop_if (status_failure status) (report clock.expiry s status)
    check_provider (report clock.expiry s status) status
    judge s status

  abbrev pub result_of : Flow VerificationResult → Option VerificationResult × Verifier
  result_of (next r v) = (some r, v)
  result_of (reply r v) = (some r, v)
  result_of (raise v) = (none, v)

  -- `verify`: the result, or `none` where the call throws, and the verifier that it leaves.
  unfoldable pub verify : VerifyParams → Verifier → Option VerificationResult × Verifier
  verify params v = result_of (verify_steps params v)
