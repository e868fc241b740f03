-- ===== src/Verifier/Samples.antt =====
-- A concrete chain, clock and verifier, for tests and for the theorems at concrete inputs.
use self_agent_id.Base.{ℕ, true, none, some, [], ◌∷◌, codes}
use self_agent_id.Registry.{Registry, RawCredentials}
use self_agent_id.Signing.Samples.{sample_ethers, sample_parser}
use self_agent_id.Verifier.{VerifierConfig}
use self_agent_id.Verifier.Auth.{World, Clock, VerifyParams}
use self_agent_id.Base.{
  true, none, some, codes, get, set, retain, to_lower, eq_text, starts_with, to_upper, trim_start,
  is_white, get_or_else,
}
use self_agent_id.Base.Int.{add_ℕ, abs_diff}
use self_agent_id.RateLimiter.{check, new_rate_limiter}
use self_agent_id.Replay.{check_and_record_replay, prune_replay_cache, replay_key}
use self_agent_id.Registry.{networks}
use self_agent_id.Signing.{
  canonicalize_signing_url, compute_signing_message, compute_body_hash, signing_text, parse_int,
}
use self_agent_id.Signing.Samples.{verify_sample}
use self_agent_id.Verifier.{Verifier, VerificationResult, new_verifier}
use self_agent_id.Verifier.Auth.{
  World, authenticate, authenticate_ed25519, authenticate_secp256k1, recover, derive_address,
  ed25519_valid, message_for, identify, empty,
}
use self_agent_id.Verifier.Chain.{
  guard_replay, read_chain, read_agent, status_failure, sybil_failure, credentials_failure,
}
use self_agent_id.Verifier.Verify.{
  verify, verify_steps, judge, check_on_chain, check_provider, get_self_provider_address,
  check_sybil, load_credentials, fetch_credentials, check_credentials, limit_rate,
}

abbrev pub raw : RawCredentials
raw = record {
  issuing_state = some (codes "FR");
  name = none;
  id_number = none;
  nationality = some (codes "FR");
  date_of_birth = none;
  gender = none;
  expiry_date = none;
  older_than = some 21;
  ofac = some (true ∷ []);
}

-- One registered agent with id 7, whose proof does not expire.
abbrev pub sample_registry : Registry
sample_registry = record {
  is_verified_agent = λ key. some true;
  get_agent_id = λ key. some 7;
  is_proof_fresh = λ id. some true;
  proof_expires_at = λ id. some 0;
  get_human_nullifier = λ id. some 5;
  get_agent_count_for_human = λ n. some 1;
  get_proof_provider = λ id. some (codes "0xAA");
  self_proof_provider = some (codes "0xaa");
  get_agent_credentials = λ id. some raw;
  has_human_proof = λ id. some true;
  get_agents_for_nullifier = λ n. some (7 ∷ []);
}

abbrev pub at : ℕ → Clock
at now = record {
  fresh = now;
  replay = now;
  cached = now;
  stored = now;
  expiry = now;
  provider_cached = now;
  provider_stored = now;
  limited = now;
}

abbrev pub world_at : ℕ → World
world_at now = record {
  ethers = sample_ethers;
  parser = sample_parser;
  registry = sample_registry;
  clock = at now;
}

abbrev pub signed_request : VerifyParams
signed_request = record {
  signature = codes "0xSIG";
  timestamp = codes "1000";
  method = codes "GET";
  url = codes "/a";
  body = none;
  keytype = none;
  agent_key = none;
}

abbrev pub default_config : VerifierConfig
default_config = record {
  network = none;
  registry_address = none;
  rpc_url = none;
  max_age_ms = none;
  cache_ttl_ms = none;
  max_agents_per_human = none;
  include_credentials = none;
  require_self_provider = none;
  enable_replay_protection = none;
  replay_cache_max_entries = none;
  minimum_age = none;
  require_ofac_passed = none;
  allowed_nationalities = none;
  rate_limit_config = none;
}

-- The whole of `verify`, for tests that run it.
unfoldable pub program : Unit {0}
unfolding verify verify_steps judge check_on_chain check_provider get_self_provider_address
    check_sybil load_credentials fetch_credentials check_credentials limit_rate guard_replay
    read_chain read_agent status_failure sybil_failure credentials_failure authenticate
    authenticate_ed25519 authenticate_secp256k1 recover derive_address ed25519_valid message_for
    identify new_verifier networks verify_sample canonicalize_signing_url compute_signing_message
    compute_body_hash signing_text parse_int check_and_record_replay prune_replay_cache replay_key
    get set retain to_lower eq_text starts_with to_upper trim_start is_white add_ℕ abs_diff check
    new_rate_limiter
program = tt

abbrev pub default_verifier : Verifier
default_verifier = new_verifier default_config

abbrev pub accepted : VerificationResult
accepted = get_or_else (verify (world_at 1000) signed_request default_verifier).0 empty
