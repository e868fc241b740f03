-- ===== src/Builder.antt =====
-- typescript-sdk/src/SelfAgentVerifier.ts: the chainable `VerifierBuilder` and
-- `SelfAgentVerifier.fromConfig`, the two other ways to make a verifier.
pub mod Laws
pub mod Enforce
mod Examples
use self_agent_id.Base.{
  ℕ, Bool, true, false, ◌||◌, not, Option, none, some, List, Text, if◌then◌else◌, is_some, is_empty,
}
use self_agent_id.RateLimiter.{RateLimitConfig}
use self_agent_id.Registry.{NetworkName}
use self_agent_id.Verifier.{Verifier, VerifierConfig, new_verifier}

pub record VerifierFromConfig : Type 0 where
  pub network : Option NetworkName
  pub registry_address : Option Text
  pub rpc_url : Option Text
  pub require_age : Option ℕ
  pub require_ofac : Option Bool
  pub require_nationality : Option (List Text)
  pub require_self_provider : Option Bool
  pub sybil_limit : Option ℕ
  pub rate_limit : Option RateLimitConfig
  pub replay_protection : Option Bool
  pub max_age_ms : Option ℕ
  pub cache_ttl_ms : Option ℕ

pub record VerifierBuilder : Type 0 where
  pub network : Option NetworkName
  pub registry_address : Option Text
  pub rpc_url : Option Text
  pub max_age_ms : Option ℕ
  pub cache_ttl_ms : Option ℕ
  pub max_agents_per_human : Option ℕ
  pub include_credentials : Option Bool
  pub require_self_provider : Option Bool
  pub enable_replay_protection : Option Bool
  pub minimum_age : Option ℕ
  pub require_ofac_passed : Option Bool
  pub allowed_nationalities : Option (List Text)
  pub rate_limit_config : Option RateLimitConfig

-- `SelfAgentVerifier.create()`
abbrev pub create : VerifierBuilder
create = record {
  network = none;
  registry_address = none;
  rpc_url = none;
  max_age_ms = none;
  cache_ttl_ms = none;
  max_agents_per_human = none;
  include_credentials = none;
  require_self_provider = none;
  enable_replay_protection = none;
  minimum_age = none;
  require_ofac_passed = none;
  allowed_nationalities = none;
  rate_limit_config = none;
}

-- The methods of the builder; `requireNationality(...codes)` takes the list of its arguments.
unfoldable pub network : NetworkName → VerifierBuilder → VerifierBuilder
network name b = record b { network = some name }

unfoldable pub registry : Text → VerifierBuilder → VerifierBuilder
registry addr b = record b { registry_address = some addr }

unfoldable pub rpc : Text → VerifierBuilder → VerifierBuilder
rpc url b = record b { rpc_url = some url }

unfoldable pub require_age : ℕ → VerifierBuilder → VerifierBuilder
require_age n b = record b { minimum_age = some n }

unfoldable pub require_ofac : VerifierBuilder → VerifierBuilder
require_ofac b = record b { require_ofac_passed = some true }

unfoldable pub require_nationality : List Text → VerifierBuilder → VerifierBuilder
require_nationality country_codes b = record b { allowed_nationalities = some country_codes }

unfoldable pub require_self_provider : VerifierBuilder → VerifierBuilder
require_self_provider b = record b { require_self_provider = some true }

unfoldable pub sybil_limit : ℕ → VerifierBuilder → VerifierBuilder
sybil_limit n b = record b { max_agents_per_human = some n }

unfoldable pub rate_limit : RateLimitConfig → VerifierBuilder → VerifierBuilder
rate_limit config b = record b { rate_limit_config = some config }

unfoldable pub replay_protection : Bool → VerifierBuilder → VerifierBuilder
replay_protection enabled b = record b { enable_replay_protection = some enabled }

unfoldable pub include_credentials : VerifierBuilder → VerifierBuilder
include_credentials b = record b { include_credentials = some true }

unfoldable pub max_age : ℕ → VerifierBuilder → VerifierBuilder
max_age ms b = record b { max_age_ms = some ms }

unfoldable pub cache_ttl : ℕ → VerifierBuilder → VerifierBuilder
cache_ttl ms b = record b { cache_ttl_ms = some ms }

abbrev pub is_true : Option Bool → Bool
is_true none = false
is_true (some b) = b

abbrev pub is_listed : Option (List Text) → Bool
is_listed none = false
is_listed (some xs) = not (is_empty xs)

-- `needsCredentials`, as the test of its truth
unfoldable pub needs_credentials : Option ℕ → Option Bool → Option (List Text) → Bool
needs_credentials age ofac nationalities = is_some age || is_true ofac || is_listed nationalities

-- `test || undefined`
abbrev pub or_undefined : Bool → Option Bool
or_undefined test = if test then some true else none

unfoldable pub build : VerifierBuilder → Verifier
unfolding needs_credentials
build b = new_verifier (record {
  network = b.network;
  registry_address = b.registry_address;
  rpc_url = b.rpc_url;
  max_age_ms = b.max_age_ms;
  cache_ttl_ms = b.cache_ttl_ms;
  max_agents_per_human = b.max_agents_per_human;
  include_credentials = or_undefined (
      needs_credentials b.minimum_age b.require_ofac_passed b.allowed_nationalities
      || is_true b.include_credentials);
  require_self_provider = b.require_self_provider;
  enable_replay_protection = b.enable_replay_protection;
  replay_cache_max_entries = none;
  minimum_age = b.minimum_age;
  require_ofac_passed = b.require_ofac_passed;
  allowed_nationalities = b.allowed_nationalities;
  rate_limit_config = b.rate_limit_config;
})

unfoldable pub from_config : VerifierFromConfig → Verifier
unfolding needs_credentials
from_config cfg = new_verifier (record {
  network = cfg.network;
  registry_address = cfg.registry_address;
  rpc_url = cfg.rpc_url;
  max_age_ms = cfg.max_age_ms;
  cache_ttl_ms = cfg.cache_ttl_ms;
  max_agents_per_human = cfg.sybil_limit;
  include_credentials =
      or_undefined (needs_credentials cfg.require_age cfg.require_ofac cfg.require_nationality);
  require_self_provider = cfg.require_self_provider;
  enable_replay_protection = cfg.replay_protection;
  replay_cache_max_entries = none;
  minimum_age = cfg.require_age;
  require_ofac_passed = cfg.require_ofac;
  allowed_nationalities = cfg.require_nationality;
  rate_limit_config = cfg.rate_limit;
})
