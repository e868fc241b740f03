-- ===== src/Verifier/Chain.antt =====
-- typescript-sdk/src/SelfAgentVerifier.ts: steps 6 to 11 of `verify`, with `checkOnChain`,
-- `getSelfProviderAddress` and `fetchCredentials`.
use self_agent_id.Base.{
  ℕ, ◌*◌, ◌/◌, Bool, false, not, ◌&&◌, Option, none, some, List, [], ◌∷◌, Text, ltb, leb,
  if◌then◌else◌, get_or_else, head_or, any, eq_text,
}
use self_agent_id.Base.Int.{ℤ, pos, negsuc, floor_div}
use self_agent_id.Replay.{check_and_record_replay}
use self_agent_id.Registry.{Registry, RawCredentials}
use self_agent_id.Verifier.{
  Settings, VerificationResult, Failure, ChainStatus, CacheEntry, ProviderEntry, AgentCredentials,
  replay_detected, not_verified, proof_expired, ofac_failed, too_many_agents, under_age,
  nationality_refused,
}
use self_agent_id.Verifier.Flow.{next, reply, M}
use self_agent_id.Verifier.Auth.{Signed, empty, fail}

-- The call of `checkAndRecordReplay` in step 4, if the protection is on.
unfoldable pub guard_replay : ℕ → Text → Signed → M (Unit {0})
guard_replay now signature s v =
    if v.settings.enable_replay_protection
    then (let (seen, cache) =
          check_and_record_replay v.settings.replay_cache_max_entries v.settings.max_age_ms now
            signature s.message s.ts v.replay_cache in
        let v' = record v { replay_cache = cache } in
        if seen
        then reply
            (fail replay_detected (record empty { agent_address = s.address; agent_key = s.key }))
            v'
        else next tt v')
    else next tt v

-- The calls of the registry in `checkOnChain`, which all have to succeed.
infixl 5 ◌>>=◌
abbrev ◌>>=◌ {ℓ κ} : {A : Type ℓ} {B : Type κ} → Option A → (A → Option B) → Option B
none >>= f = none
some a >>= f = f a

abbrev pub human_of : Registry → ℕ → ℕ → Option (ℕ × ℕ)
human_of registry max_agents agent_id =
    if ltb 0 max_agents
    then (do
      n ← registry.get_human_nullifier agent_id
      count ← registry.get_agent_count_for_human n
      some (n, count))
    else some (0, 0)

abbrev pub provider_of : Registry → Bool → ℕ → Option Text
provider_of registry required agent_id =
    if required then registry.get_proof_provider agent_id else some []

unfoldable pub read_agent : Registry → Settings → Bool → ℕ → Option ChainStatus
read_agent registry settings verified agent_id = do
  fresh ← registry.is_proof_fresh agent_id
  expires ← registry.proof_expires_at agent_id
  (n, count) ← human_of registry settings.max_agents_per_human agent_id
  provider ← provider_of registry settings.require_self_provider agent_id
  some (record {
    is_verified = verified;
    is_proof_fresh = fresh;
    agent_id = agent_id;
    agent_count = count;
    nullifier = n;
    provider_address = provider;
    proof_expires_at = expires;
  })

unfoldable pub read_chain : Registry → Settings → Text → Option ChainStatus
unfolding read_agent
read_chain registry settings key = do
  verified ← registry.is_verified_agent key
  agent_id ← registry.get_agent_id key
  let unknown : ChainStatus = record {
    is_verified = verified;
    is_proof_fresh = false;
    agent_id = agent_id;
    agent_count = 0;
    nullifier = 0;
    provider_address = [];
    proof_expires_at = 0;
  }
  (if ltb 0 agent_id then read_agent registry settings verified agent_id else some unknown)

-- An entry of the status cache that has not expired.
abbrev pub cached_status : ℕ → Option CacheEntry → Option ChainStatus
cached_status now none = none
cached_status now (some entry) = if ltb now entry.expires_at then some entry.status else none

abbrev pub cached_provider : ℕ → Option ProviderEntry → Option Text
cached_provider now none = none
cached_provider now (some entry) = if ltb now entry.expires_at then some entry.address else none

abbrev pub raw_or_default : RawCredentials → AgentCredentials
raw_or_default raw = record {
  issuing_state = get_or_else raw.issuing_state [];
  name = get_or_else raw.name [];
  id_number = get_or_else raw.id_number [];
  nationality = get_or_else raw.nationality [];
  date_of_birth = get_or_else raw.date_of_birth [];
  gender = get_or_else raw.gender [];
  expiry_date = get_or_else raw.expiry_date [];
  older_than = get_or_else raw.older_than 0;
  ofac = get_or_else raw.ofac (false ∷ false ∷ false ∷ []);
}

-- Whole days until the proof expires, if it has an expiry: `now` is in milliseconds.
abbrev pub days_until : ℕ → ℕ → Option ℤ
days_until now expires_at =
    if ltb 0 expires_at then some (floor_div expires_at (now / 1000) 86400) else none

abbrev pub soon : Option ℤ → Bool
soon none = false
soon (some (pos days)) = leb days 30
soon (some (negsuc days)) = false

-- The fields that every result from step 6 on carries.
abbrev pub report : ℕ → Signed → ChainStatus → VerificationResult
report now s status = record {
  valid = false;
  agent_address = s.address;
  agent_key = s.key;
  agent_id = status.agent_id;
  agent_count = status.agent_count;
  nullifier = status.nullifier;
  credentials = none;
  error = none;
  retry_after_ms = none;
  proof_expires_at =
      if ltb 0 status.proof_expires_at then some (status.proof_expires_at * 1000) else none;
  days_until_expiry = days_until now status.proof_expires_at;
  is_expiring_soon = some (soon (days_until now status.proof_expires_at));
}

-- Steps 6 and 6b.
unfoldable pub status_failure : ChainStatus → Option Failure
status_failure status =
    if not status.is_verified
    then some not_verified
    else (if not status.is_proof_fresh then some proof_expired else none)

-- Step 8.
unfoldable pub sybil_failure : Settings → ChainStatus → Option Failure
sybil_failure settings status =
    if ltb 0 settings.max_agents_per_human && ltb settings.max_agents_per_human status.agent_count
    then some (too_many_agents status.agent_count settings.max_agents_per_human)
    else none

abbrev pub too_young : Option ℕ → ℕ → Option Failure
too_young none older_than = none
too_young (some age) older_than =
    if ltb older_than age then some (under_age age older_than) else none

abbrev pub nationality_failure : Option (List Text) → Text → Option Failure
nationality_failure none nationality = none
nationality_failure (some []) nationality = none
nationality_failure (some (n ∷ ns)) nationality =
    if any (λ a. eq_text a nationality) (n ∷ ns)
    then none
    else some (nationality_refused nationality)

abbrev pub first_failure : Option Failure → Option Failure → Option Failure
first_failure none g = g
first_failure (some f) g = some f

-- Step 10: the checks on the credentials, if they were fetched.
unfoldable pub credentials_failure : Settings → Option AgentCredentials → Option Failure
credentials_failure settings none = none
credentials_failure settings (some c) =
    first_failure (too_young settings.minimum_age c.older_than) (
      first_failure
        (if settings.require_ofac_passed && not (head_or false c.ofac)
          then some ofac_failed
          else none)
        (nationality_failure settings.allowed_nationalities c.nationality))

abbrev pub stop_if : Option Failure → VerificationResult → M (Unit {0})
stop_if none base v = next tt v
stop_if (some failure) base v = reply (fail failure base) v
