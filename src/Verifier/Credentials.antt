-- ===== src/Verifier/Credentials.antt =====
-- Credential requirements where the credentials cannot be read.
use self_agent_id.Base.{
  sym, ℕ, ◌≡◌, refl, sym, ap, ◌∙◌, false, none, some, Option, Text, arith, ◌&&◌, ltb, Bool-cases,
  inl, inr,
}
use self_agent_id.Verifier.{Verifier, VerificationResult, ChainStatus, Failure}
use self_agent_id.Verifier.Auth.{
  World, VerifyParams, Signed, Auth, identify, authenticate, lift_auth,
}
use self_agent_id.Verifier.Flow.{Flow, next, reply, raise, M, ◌>>=◌}
use self_agent_id.Verifier.Chain.{
  guard_replay, read_chain, report, sybil_failure, credentials_failure, status_failure, stop_if,
}
use self_agent_id.Verifier.Verify.{
  verify, verify_steps, result_of, judge, check_sybil, load_credentials, fetch_credentials,
  check_credentials, limit_rate, check_on_chain, check_provider, get_self_provider_address, accept,
  with_credentials,
}

-- The verifier with no requirement on the age, the OFAC screening or the nationality.
abbrev pub without_requirements : Verifier → Verifier
without_requirements v = record v {
  settings = record v.settings {
    minimum_age = none;
    require_ofac_passed = false;
    allowed_nationalities = none;
  };
}

map_flow : {A : Type 0} → Flow A → Flow A
map_flow (next a v) = next a (without_requirements v)
map_flow (reply r v) = reply r (without_requirements v)
map_flow (raise v) = raise (without_requirements v)

-- A step that does not look at the requirements.
abbrev Ignores : {A : Type 0} → M A → Type 0
Ignores m = (v : Verifier) → m (without_requirements v) ≡ map_flow (m v)

>>=-Ignores :
    {A B : Type 0} (m : M A) (f : A → M B)
    → Ignores m
    → ((a : A) → Ignores (f a))
    → Ignores (m >>= f)
unfolding map_flow
>>=-Ignores {A} {B} m f first rest v =
    ap (λ x. elim x [ next a u ↦ f a u | reply r u ↦ reply r u | raise u ↦ raise u ]) (first v)
    ∙ go (m v)
  where
    go :
        (x : Flow A)
        → elim (map_flow x) [ next a u ↦ f a u | reply r u ↦ reply r u | raise u ↦ raise u ]
          ≡ map_flow (elim x [ next a u ↦ f a u | reply r u ↦ reply r u | raise u ↦ raise u ])
    go (next a u) = rest a u
    go (reply r u) = refl
    go (raise u) = refl

next->>=-Ignores :
    {A B : Type 0} (m : M A) (f : A → M B) (a : A)
    → ((v : Verifier) → m v ≡ next a v)
    → Ignores (f a)
    → Ignores (m >>= f)
next->>=-Ignores {A} {B} m f a same rest v =
    let go : Flow A → Flow B =
      λ x. elim x [ next a u ↦ f a u | reply r u ↦ reply r u | raise u ↦ raise u ] in
    ap go (same (without_requirements v)) ∙ (rest v ∙ ap (λ x. map_flow (go x)) (sym (same v)))

stop_if-Ignores :
    (failure : Option Failure) (base : VerificationResult) → Ignores (stop_if failure base)
unfolding map_flow
stop_if-Ignores none base v = refl
stop_if-Ignores (some failure) base v = refl

lift_auth-Ignores :
    (w : World) (a : Auth) (v : Verifier)
    → lift_auth w a (without_requirements v) ≡ map_flow (lift_auth w a v)
unfolding map_flow
lift_auth-Ignores w a v = ground arith

identify-Ignores : (w : World) (params : VerifyParams) → Ignores (identify w params)
unfolding identify
identify-Ignores w params v = lift_auth-Ignores w (authenticate w v.settings.max_age_ms params) v

guard_replay-Ignores :
    (now : ℕ) (signature : Text) (s : Signed) → Ignores (guard_replay now signature s)
unfolding guard_replay map_flow
guard_replay-Ignores now signature s v = ground arith

read_chain-without_requirements :
    (w : World) (key : Text) (v : Verifier)
    → read_chain w.registry (without_requirements v).settings key
      ≡ read_chain w.registry v.settings key
unfolding read_chain
read_chain-without_requirements w key v = refl

check_on_chain-Ignores : (w : World) (key : Text) → Ignores (check_on_chain w key)
unfolding check_on_chain map_flow
check_on_chain-Ignores w key v = ground (arith, read_chain-without_requirements w key v)

check_provider-Ignores :
    (w : World) (base : VerificationResult) (status : ChainStatus)
    → Ignores (check_provider w base status)
unfolding check_provider get_self_provider_address map_flow
check_provider-Ignores w base status v = ground arith

check_sybil-Ignores :
    (w : World) (base : VerificationResult) (status : ChainStatus)
    → Ignores (check_sybil w base status)
unfolding check_sybil sybil_failure
check_sybil-Ignores w base status v = stop_if-Ignores (sybil_failure v.settings status) base v

limit_rate-Ignores :
    (now : ℕ) (address : Text) (base : VerificationResult) → Ignores (limit_rate now address base)
unfolding limit_rate map_flow
limit_rate-Ignores now address base v = ground arith

-- No credentials are loaded where the call of the registry is rejected.
none_loaded :
    (w : World) (status : ChainStatus) (v : Verifier)
    → w.registry.get_agent_credentials status.agent_id ≡ none
    → load_credentials w status v ≡ next none v
unfolding load_credentials fetch_credentials
none_loaded w status v rejected =
    elim (Bool-cases (v.settings.include_credentials && ltb 0 status.agent_id)) [
      | inl asked ↦ rw (asked, rejected) refl
      | inr not_asked ↦ rw not_asked refl
    ]

module _ (w : World)
    (rejected : (agent_id : ℕ) → w.registry.get_agent_credentials agent_id ≡ none) where
  judge-Ignores : (s : Signed) (status : ChainStatus) → Ignores (judge w s status)
  unfolding judge check_credentials credentials_failure map_flow
  judge-Ignores s status =
      let base = report w.clock.expiry s status in
      let full = with_credentials w none base in
      >>=-Ignores (check_sybil w base status) _ (check_sybil-Ignores w base status) (λ a.
        next->>=-Ignores (load_credentials w status) _ none
          (λ v. none_loaded w status v (rejected status.agent_id))
          (>>=-Ignores (check_credentials w full) _ (λ v. refl)
            (λ b.
              >>=-Ignores (limit_rate w.clock.limited s.address full) (λ c. accept w full)
                (limit_rate-Ignores w.clock.limited s.address full) (λ c v. refl))))

  verify_steps-Ignores : (params : VerifyParams) → Ignores (verify_steps w params)
  unfolding verify_steps
  verify_steps-Ignores params = >>=-Ignores (identify w params) _ (identify-Ignores w params) (λ s.
      >>=-Ignores (guard_replay w.clock.replay params.signature s) _
        (guard_replay-Ignores w.clock.replay params.signature s)
        (λ a. >>=-Ignores (check_on_chain w s.key) _ (check_on_chain-Ignores w s.key) (λ status.
          let base = report w.clock.expiry s status in
          >>=-Ignores (stop_if (status_failure status) base) _
            (stop_if-Ignores (status_failure status) base)
            (λ b.
              >>=-Ignores (check_provider w base status) _ (check_provider-Ignores w base status)
                (λ c. judge-Ignores s status)))))

  result_of_map : (x : Flow VerificationResult) → (result_of w (map_flow x)).0 ≡ (result_of w x).0
  unfolding map_flow
  result_of_map (next r v) = refl
  result_of_map (reply r v) = refl
  result_of_map (raise v) = refl

  -- Where the registry rejects every call for credentials, the requirements on the age, the OFAC screening
  -- and the nationality are not enforced: every call of `verify` has the very result of a verifier with
  -- no such requirement, and so accepts whatever request that one accepts.
  pub verify_without_credentials :
      (params : VerifyParams) (v : Verifier)
      → (verify w params v).0 ≡ (verify w params (without_requirements v)).0
  unfolding verify
  verify_without_credentials params v = sym (
      ap (λ x. (result_of w x).0) (verify_steps-Ignores params v)
      ∙ result_of_map (verify_steps w params v))
