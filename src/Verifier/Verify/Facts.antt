-- ===== src/Verifier/Verify/Facts.antt =====
-- The facts that a valid result of `verify` stands for, put together from those of its steps.
use self_agent_id.Base.{
  ℕ, if◌then◌else◌, Distinct, length, ltb, Bool-cases, sym, ◌≤◌, ◌<◌, ◌≡◌, ◌∙◌, ◌⊎◌, inl, inr, true,
  false, none, some, Text, eq_text, get, to_lower, arith,
}
use self_agent_id.RateLimiter.{check, RateLimiter}
use self_agent_id.Replay.{ReplayCache, replay_key, check_and_record_replay}
use self_agent_id.Verifier.{Verifier, VerificationResult, ChainStatus, AgentCredentials}
use self_agent_id.Verifier.Auth.{
  message_for, is_ed25519, Signed, World, VerifyParams, signed, authenticate,
}
use self_agent_id.Verifier.Chain.{
  read_chain, cached_status, cached_provider, status_failure, credentials_failure,
}
use self_agent_id.Verifier.Verify.Shape
use self_agent_id.Verifier.Verify.Judged.{
  MeetsCredentials, credentials_checked, loaded_for, IsJudged,
}
use self_agent_id.Base.Int.{abs_diff}
use self_agent_id.Signing.{parse_int}
use self_agent_id.Replay.Window.{Attempt, attempt, Holds, refused_of_Holds}
use self_agent_id.Verifier.Signer.{IsRecovered, IsEd25519, authenticate-signed}
use mathlib.Core.Path.{subst}
use mathlib.Core.Bool.{false≢true}

-- What holds of a valid result `r` of a call of `verify` on the verifier `v`.
pub record IsAccepted (w : World) (params : VerifyParams) (v : Verifier) (r : VerificationResult)
    : Type 0 where
  pub signer : Signed
  pub status : ChainStatus
  pub authentic : authenticate w v.settings.max_age_ms params ≡ signed signer
  pub timely :
      (parse_int params.timestamp ≡ some signer.ts)
      × (abs_diff w.clock.fresh signer.ts ≤ v.settings.max_age_ms)
  -- The signature is one of this timestamp, method, URL and body.
  pub signature_proves :
      (signer.message ≡ message_for w params)
      × (if is_ed25519 w params.keytype
          then IsEd25519 w params signer
          else IsRecovered w params signer)
  pub reported :
      (r.agent_address ≡ signer.address)
      × (r.agent_key ≡ signer.key)
      × (r.agent_id ≡ status.agent_id)
  pub not_replayed :
      v.settings.enable_replay_protection ≡ true
      → (check_and_record_replay v.settings.replay_cache_max_entries v.settings.max_age_ms
          w.clock.replay params.signature signer.message signer.ts v.replay_cache).0
        ≡ false
  -- No entry of a well-formed replay cache holds the fingerprint beyond the present.
  pub not_held :
      (until : ℕ)
      → v.settings.enable_replay_protection ≡ true
      → Distinct v.replay_cache
      → length v.replay_cache ≤ v.settings.replay_cache_max_entries
      → Holds (replay_key params.signature signer.message) until v.replay_cache
      → until ≤ w.clock.replay
  pub known :
      (cached_status w.clock.cached (get signer.key v.cache) ≡ some status)
      ⊎ (read_chain w.registry v.settings signer.key ≡ some status)
  pub verified : status.is_verified ≡ true
  pub fresh : status.is_proof_fresh ≡ true
  pub by_self :
      v.settings.require_self_provider ≡ true
      → 0 < status.agent_id
      → (address : Text) × ((cached_provider w.clock.provider_cached v.self_provider_cache
            ≡ some address)
          ⊎ (w.registry.self_proof_provider ≡ some address))
        × (eq_text (to_lower status.provider_address) (to_lower address) ≡ true)
  -- The credentials are those that the registry gave, where they were asked for.
  pub loaded : r.credentials ≡ loaded_for w v.settings r.agent_id
  pub few_agents :
      0 < v.settings.max_agents_per_human → status.agent_count ≤ v.settings.max_agents_per_human
  pub meets : (c : AgentCredentials) → r.credentials ≡ some c → MeetsCredentials v.settings c
  pub not_limited :
      (limiter : RateLimiter)
      → v.rate_limiter ≡ some limiter
      → (check w.clock.limited signer.address limiter).0 ≡ none

status_failure-none :
    (status : ChainStatus)
    → status_failure status ≡ none
    → (status.is_verified ≡ true) × (status.is_proof_fresh ≡ true)
unfolding status_failure
status_failure-none status h = ground arith

-- A request that was let through was not held.
not_held_of_unseen :
    (max_entries max_age : ℕ) (a : Attempt) (until : ℕ) (cache : ReplayCache)
    → (attempt max_entries max_age a cache).0 ≡ false
    → Distinct cache
    → length cache ≤ max_entries
    → Holds (replay_key a.signature a.message) until cache
    → until ≤ a.now
not_held_of_unseen max_entries max_age a until cache unseen d small held =
    elim (Bool-cases (ltb a.now until)) [
      | inr late ↦ ground arith
      | inl early ↦
          let seen =
            refused_of_Holds max_entries max_age a until cache d small held (ground arith) in
          absurd (false≢true (sym unseen ∙ seen))
    ]

-- From the facts of the single steps to the facts about the verifier at the start.
pub assemble :
    (w : World) (params : VerifyParams) (s : Signed) (status : ChainStatus)
    (v v1 v2 v3 v4 v5 : Verifier) {r : VerificationResult}
    → authenticate w v.settings.max_age_ms params ≡ signed s
    → v1 ≡ v
    → (v1.settings.enable_replay_protection ≡ true
        → (check_and_record_replay v1.settings.replay_cache_max_entries v1.settings.max_age_ms
            w.clock.replay params.signature s.message s.ts v1.replay_cache).0
          ≡ false)
    → v2.cache ≡ v1.cache
    → Shape.Same v1 v2
    → ((cached_status w.clock.cached (get s.key v2.cache) ≡ some status)
        ⊎ (read_chain w.registry v2.settings s.key ≡ some status))
    → Shape.Same v2 v3
    → status_failure status ≡ none
    → v4 ≡ v3
    → (v4.settings.require_self_provider ≡ true
        → 0 < status.agent_id
        → (address : Text) × ((cached_provider w.clock.provider_cached v4.self_provider_cache
              ≡ some address)
            ⊎ (w.registry.self_proof_provider ≡ some address))
          × (eq_text (to_lower status.provider_address) (to_lower address) ≡ true))
    → Shape.SameLimits v4 v5
    → IsJudged w s status v5 r
    → IsAccepted w params v r
assemble w params s status v v1 v2 v3 v4 v5 {r} auth p unseen caches same2 known same3 good o
      provider same5 j =
    let settings2 : v2.settings ≡ v.settings = cc in
    let settings4 : v4.settings ≡ v.settings = cc in
    let settings5 : v5.settings ≡ v.settings = cc in
    let limiters : v5.rate_limiter ≡ v.rate_limiter = cc in
    let providers : v4.self_provider_cache ≡ v.self_provider_cache = cc in
    let cache2 : v2.cache ≡ v.cache = cc in
    let (parsed, recent, message, proof) =
      authenticate-signed w v.settings.max_age_ms params s auth in
    let unseen0 =
      subst
        (λ x.
          x.settings.enable_replay_protection ≡ true
          → (check_and_record_replay x.settings.replay_cache_max_entries x.settings.max_age_ms
              w.clock.replay params.signature s.message s.ts x.replay_cache).0
            ≡ false)
        p unseen in
    record {
      signer = s;
      status = status;
      authentic = auth;
      timely = (parsed, recent);
      signature_proves = (message, proof);
      reported = j.reported;
      not_replayed = unseen0;
      not_held = λ until on.
          not_held_of_unseen v.settings.replay_cache_max_entries v.settings.max_age_ms
            (record {
              now = w.clock.replay;
              signature = params.signature;
              message = s.message;
              ts = s.ts;
            })
            until v.replay_cache (unseen0 on);
      known = elim known [
        | inl held ↦
            inl (subst (λ x. cached_status w.clock.cached (get s.key x) ≡ some status) cache2 held)
        | inr asked ↦ inr (subst (λ x. read_chain w.registry x s.key ≡ some status) settings2 asked)
      ];
      verified = (status_failure-none status good).0;
      fresh = (status_failure-none status good).1;
      by_self = λ needed positive.
          let (address, found, same) = provider (rw settings4 needed) positive in
          (
            address,
            subst
                (λ x.
                  (cached_provider w.clock.provider_cached x ≡ some address)
                  ⊎ (w.registry.self_proof_provider ≡ some address))
                providers found,
            same,
          );
      loaded =
          subst (λ x. r.credentials ≡ loaded_for w x r.agent_id) settings5
            (subst (λ x. r.credentials ≡ loaded_for w v5.settings x) (sym j.reported.2) j.loaded);
      few_agents =
          subst (λ x. 0 < x.max_agents_per_human → status.agent_count ≤ x.max_agents_per_human)
            settings5 j.few_agents;
      meets = λ c e. credentials_checked v.settings c (
          subst (λ x. credentials_failure x (some c) ≡ none) settings5
            (subst (λ x. credentials_failure v5.settings x ≡ none) e j.checked));
      not_limited = λ limiter e. j.not_limited limiter (limiters ∙ e);
    }
