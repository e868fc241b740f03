-- ===== src/Verifier.antt =====
-- typescript-sdk/src/SelfAgentVerifier.ts: the data of `SelfAgentVerifier`, its construction and
-- its caches. Bigints and numbers are natural numbers, a `Date` is its milliseconds, and each
-- message of a refusal is a constructor with the values that it prints.
pub mod Flow
pub mod Auth
pub mod Chain
pub mod Verify
pub mod Signer
pub mod Flaws
pub mod Replays
pub mod Expiry
pub mod Credentials
pub mod Samples
mod Examples
use self_agent_id.Base.{
  ℕ, ◌<◌, Bool, true, false, Option, none, some, List, [], ◌∷◌, Text, codes, get_or_else, ltb,
}
use mathlib.Core.Option
use self_agent_id.Base.Int.{ℤ}
use self_agent_id.RateLimiter.{RateLimiter, RateLimitConfig, RateError, new_rate_limiter}
use self_agent_id.Replay.{ReplayCache}
use self_agent_id.Registry.{
  NetworkName, networks, default_network, default_max_age_ms, default_cache_ttl_ms,
}

pub record VerifierConfig : Type 0 where
  pub network : Option NetworkName
  pub registry_address : Option Text
  pub rpc_url : Option Text
  pub max_age_ms : Option ℕ
  pub cache_ttl_ms : Option ℕ
  pub max_agents_per_human : Option ℕ
  pub include_credentials : Option Bool
  pub require_self_provider : Option Bool
  pub enable_replay_protection : Option Bool
  pub replay_cache_max_entries : Option ℕ
  pub minimum_age : Option ℕ
  pub require_ofac_passed : Option Bool
  pub allowed_nationalities : Option (List Text)
  pub rate_limit_config : Option RateLimitConfig

pub record AgentCredentials : Type 0 where
  pub issuing_state : Text
  pub name : List Text
  pub id_number : Text
  pub nationality : Text
  pub date_of_birth : Text
  pub gender : Text
  pub expiry_date : Text
  pub older_than : ℕ
  pub ofac : List Bool

pub data Failure : Type 0 where
  timestamp_invalid missing_agent_key invalid_ed25519 invalid_signature replay_detected : Failure
  not_verified proof_expired provider_rpc_error provider_mismatch ofac_failed : Failure
  too_many_agents under_age : ℕ → ℕ → Failure
  nationality_refused : Text → Failure
  rate_limited : RateError → Failure

pub record VerificationResult : Type 0 where
  pub valid : Bool
  pub agent_address : Text
  pub agent_key : Text
  pub agent_id : ℕ
  pub agent_count : ℕ
  pub nullifier : ℕ
  pub credentials : Option AgentCredentials
  pub error : Option Failure
  pub retry_after_ms : Option ℕ
  pub proof_expires_at : Option ℕ
  pub days_until_expiry : Option ℤ
  pub is_expiring_soon : Option Bool

-- What `checkOnChain` returns.
pub record ChainStatus : Type 0 where
  pub is_verified : Bool
  pub is_proof_fresh : Bool
  pub agent_id : ℕ
  pub agent_count : ℕ
  pub nullifier : ℕ
  pub provider_address : Text
  pub proof_expires_at : ℕ

pub record CacheEntry : Type 0 where
  pub status : ChainStatus
  pub expires_at : ℕ

pub record ProviderEntry : Type 0 where
  pub address : Text
  pub expires_at : ℕ

-- The fields that the constructor sets once.
pub record Settings : Type 0 where
  pub registry_address : Text
  pub rpc_url : Text
  pub max_age_ms : ℕ
  pub cache_ttl_ms : ℕ
  pub max_agents_per_human : ℕ
  pub include_credentials : Bool
  pub require_self_provider : Bool
  pub enable_replay_protection : Bool
  pub replay_cache_max_entries : ℕ
  pub minimum_age : Option ℕ
  pub require_ofac_passed : Bool
  pub allowed_nationalities : Option (List Text)

pub record Verifier : Type 0 where
  pub settings : Settings
  pub rate_limiter : Option RateLimiter
  pub cache : List (Text × CacheEntry)
  pub replay_cache : ReplayCache
  pub self_provider_cache : Option ProviderEntry

unfoldable pub new_verifier : VerifierConfig → Verifier
unfolding networks
new_verifier config = record {
  settings = record {
    registry_address =
        get_or_else config.registry_address
          (networks (get_or_else config.network default_network)).registry_address;
    rpc_url =
        get_or_else config.rpc_url (networks (get_or_else config.network default_network)).rpc_url;
    max_age_ms = get_or_else config.max_age_ms default_max_age_ms;
    cache_ttl_ms = get_or_else config.cache_ttl_ms default_cache_ttl_ms;
    max_agents_per_human = get_or_else config.max_agents_per_human 1;
    include_credentials = get_or_else config.include_credentials false;
    require_self_provider = get_or_else config.require_self_provider true;
    enable_replay_protection = get_or_else config.enable_replay_protection true;
    replay_cache_max_entries = get_or_else config.replay_cache_max_entries 10000;
    minimum_age = config.minimum_age;
    require_ofac_passed = get_or_else config.require_ofac_passed false;
    allowed_nationalities = config.allowed_nationalities;
  };
  rate_limiter = Option.map new_rate_limiter config.rate_limit_config;
  cache = [];
  replay_cache = [];
  self_provider_cache = none;
}

-- `clearCache()`
unfoldable pub clear_cache : Verifier → Verifier
clear_cache v = record v { cache = []; self_provider_cache = none; replay_cache = [] }
