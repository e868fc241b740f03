-- ===== src/Builder/Examples.antt =====
-- The theorems on the builder at concrete configurations.
use self_agent_id.Base.{get_or_else, ◌≡◌, refl, true, none, some, [], ◌∷◌, codes, arith}
use self_agent_id.Verifier.{VerificationResult}
use self_agent_id.Verifier.Auth.{empty}
use self_agent_id.Verifier.Chain.{raw_or_default}
use self_agent_id.Verifier.Verify.{verify}
use self_agent_id.Verifier.Samples.{program, world_at, signed_request, raw}
use self_agent_id.Builder.{
  VerifierFromConfig, VerifierBuilder, create, require_age, build, from_config, needs_credentials,
}
use self_agent_id.Builder.Laws.{chain, build-chain}
use self_agent_id.Builder.Enforce.{MeetsRequirements, build_enforces}

abbrev adults : VerifierFromConfig
adults = record {
  network = none;
  registry_address = none;
  rpc_url = none;
  require_age = some 18;
  require_ofac = none;
  require_nationality = some (codes "FR" ∷ []);
  require_self_provider = some true;
  sybil_limit = some 2;
  rate_limit = none;
  replay_protection = none;
  max_age_ms = none;
  cache_ttl_ms = none;
}

build-chain_example : build (chain adults) ≡ from_config adults
build-chain_example = build-chain adults (λ e. cc)

abbrev adults_only : VerifierBuilder
unfolding require_age
adults_only = require_age 18 create

abbrev accepted_adult : VerificationResult
unfolding program build needs_credentials require_age
accepted_adult = get_or_else (verify (world_at 1000) signed_request (build adults_only)).0 empty

build_enforces_example : MeetsRequirements adults_only (raw_or_default raw)
unfolding program build needs_credentials require_age
build_enforces_example =
    build_enforces (world_at 1000) signed_request adults_only (build adults_only) accepted_adult raw
      refl refl refl refl (omega arith) refl
