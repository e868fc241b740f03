-- ===== src/Builder/Laws.antt =====
-- The builder against `fromConfig`.
use self_agent_id.Base.{
  or_else, ℕ, ◌≡◌, ◌≢◌, refl, Bool, true, false, Option, none, some, List, Text, arith,
}
use self_agent_id.RateLimiter.{RateLimitConfig}
use self_agent_id.Registry.{NetworkName}
use self_agent_id.Verifier.{new_verifier}
use self_agent_id.Builder.{
  VerifierFromConfig, VerifierBuilder, create, network, registry, rpc, require_age, require_ofac,
  require_nationality, require_self_provider, sybil_limit, rate_limit, replay_protection, max_age,
  cache_ttl, is_true, or_undefined, build, from_config,
}

-- A call of a method for a field that is given.
abbrev call {ℓ} :
    {A : Type ℓ}
    → (A → VerifierBuilder → VerifierBuilder)
    → Option A
    → VerifierBuilder
    → VerifierBuilder
call method none b = b
call method (some a) b = method a b

abbrev when : (VerifierBuilder → VerifierBuilder) → Bool → VerifierBuilder → VerifierBuilder
when method false b = b
when method true b = method b

-- The chain of method calls that says what a flat configuration says: one call for each field that
-- is given, where `requireOFAC()` and `requireSelfProvider()` are called for `true` only.
pub chain : VerifierFromConfig → VerifierBuilder
chain cfg = call network cfg.network (
    call registry cfg.registry_address (
      call rpc cfg.rpc_url (
        call require_age cfg.require_age (
          when require_ofac (is_true cfg.require_ofac) (
            call require_nationality cfg.require_nationality (
              when require_self_provider (is_true cfg.require_self_provider) (
                call sybil_limit cfg.sybil_limit (
                  call rate_limit cfg.rate_limit (
                    call replay_protection cfg.replay_protection (
                      call max_age cfg.max_age_ms (call cache_ttl cfg.cache_ttl_ms create)))))))))))

call-network :
    (o : Option NetworkName) (b : VerifierBuilder)
    → call network o b ≡ record b { network = or_else o b.network }
unfolding network
call-network none b = refl
call-network (some a) b = refl

call-registry :
    (o : Option Text) (b : VerifierBuilder)
    → call registry o b ≡ record b { registry_address = or_else o b.registry_address }
unfolding registry
call-registry none b = refl
call-registry (some a) b = refl

call-rpc :
    (o : Option Text) (b : VerifierBuilder)
    → call rpc o b ≡ record b { rpc_url = or_else o b.rpc_url }
unfolding rpc
call-rpc none b = refl
call-rpc (some a) b = refl

call-require_age :
    (o : Option ℕ) (b : VerifierBuilder)
    → call require_age o b ≡ record b { minimum_age = or_else o b.minimum_age }
unfolding require_age
call-require_age none b = refl
call-require_age (some a) b = refl

call-require_nationality :
    (o : Option (List Text)) (b : VerifierBuilder)
    → call require_nationality o b
      ≡ record b { allowed_nationalities = or_else o b.allowed_nationalities }
unfolding require_nationality
call-require_nationality none b = refl
call-require_nationality (some a) b = refl

call-sybil_limit :
    (o : Option ℕ) (b : VerifierBuilder)
    → call sybil_limit o b ≡ record b { max_agents_per_human = or_else o b.max_agents_per_human }
unfolding sybil_limit
call-sybil_limit none b = refl
call-sybil_limit (some a) b = refl

call-rate_limit :
    (o : Option RateLimitConfig) (b : VerifierBuilder)
    → call rate_limit o b ≡ record b { rate_limit_config = or_else o b.rate_limit_config }
unfolding rate_limit
call-rate_limit none b = refl
call-rate_limit (some a) b = refl

call-replay_protection :
    (o : Option Bool) (b : VerifierBuilder)
    → call replay_protection o b
      ≡ record b { enable_replay_protection = or_else o b.enable_replay_protection }
unfolding replay_protection
call-replay_protection none b = refl
call-replay_protection (some a) b = refl

call-max_age :
    (o : Option ℕ) (b : VerifierBuilder)
    → call max_age o b ≡ record b { max_age_ms = or_else o b.max_age_ms }
unfolding max_age
call-max_age none b = refl
call-max_age (some a) b = refl

call-cache_ttl :
    (o : Option ℕ) (b : VerifierBuilder)
    → call cache_ttl o b ≡ record b { cache_ttl_ms = or_else o b.cache_ttl_ms }
unfolding cache_ttl
call-cache_ttl none b = refl
call-cache_ttl (some a) b = refl

when-require_ofac :
    (t : Bool) (b : VerifierBuilder)
    → when require_ofac t b
      ≡ record b { require_ofac_passed = or_else (or_undefined t) b.require_ofac_passed }
unfolding require_ofac
when-require_ofac true b = refl
when-require_ofac false b = refl

when-require_self_provider :
    (t : Bool) (b : VerifierBuilder)
    → when require_self_provider t b
      ≡ record b { require_self_provider = or_else (or_undefined t) b.require_self_provider }
unfolding require_self_provider
when-require_self_provider true b = refl
when-require_self_provider false b = refl

or_else-none {ℓ} : {A : Type ℓ} (o : Option A) → or_else o none ≡ o
or_else-none none = refl
or_else-none (some a) = refl

ruleset calls = (
  call-network, call-registry, call-rpc, call-require_age, call-require_nationality,
  call-sybil_limit, call-rate_limit, call-replay_protection, call-max_age, call-cache_ttl,
  when-require_ofac, when-require_self_provider, or_else-none,
)

chain_fields :
    (cfg : VerifierFromConfig)
    → chain cfg ≡ record {
      network = cfg.network;
      registry_address = cfg.registry_address;
      rpc_url = cfg.rpc_url;
      max_age_ms = cfg.max_age_ms;
      cache_ttl_ms = cfg.cache_ttl_ms;
      max_agents_per_human = cfg.sybil_limit;
      include_credentials = none;
      require_self_provider = or_undefined (is_true cfg.require_self_provider);
      enable_replay_protection = cfg.replay_protection;
      minimum_age = cfg.require_age;
      require_ofac_passed = or_undefined (is_true cfg.require_ofac);
      allowed_nationalities = cfg.require_nationality;
      rate_limit_config = cfg.rate_limit;
    }
unfolding chain
chain_fields cfg = simp calls

-- The chain of method calls for a flat configuration builds the same verifier as `fromConfig`,
-- unless the configuration switches the provider check off: the builder has no call for that.
pub build-chain :
    (cfg : VerifierFromConfig)
    → cfg.require_self_provider ≢ some false
    → build (chain cfg) ≡ from_config cfg
unfolding build from_config new_verifier
build-chain cfg on = rw (chain_fields cfg) (ground arith)
