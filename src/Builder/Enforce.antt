-- ===== src/Builder/Enforce.antt =====
-- What a built verifier demands of the credentials.
use self_agent_id.Base.{
  ◌≤◌, false, List, ◌∷◌, Text, any, eq_text, head_or, ℕ, ◌<◌, ◌≡◌, ◌∙◌, refl, true, some, lt→ltb,
}
use self_agent_id.Registry.{RawCredentials}
use self_agent_id.Verifier.{Verifier, VerificationResult, AgentCredentials, Settings, new_verifier}
use self_agent_id.Verifier.Auth.{World, VerifyParams}
use self_agent_id.Verifier.Verify.{verify, fetch_credentials}
use self_agent_id.Verifier.Chain.{raw_or_default}
use self_agent_id.Verifier.Verify.Judged.{MeetsCredentials, loaded_for}
use self_agent_id.Verifier.Verify.Accepts.{verify-IsAccepted}
use self_agent_id.Builder.{VerifierBuilder, build, needs_credentials}
use mathlib.Core.Path.{subst}

build_includes :
    (b : VerifierBuilder)
    → needs_credentials b.minimum_age b.require_ofac_passed b.allowed_nationalities ≡ true
    → (build b).settings.include_credentials ≡ true
unfolding build new_verifier
build_includes b h = rw h refl

loaded_for-some :
    (w : World) (settings : Settings) (agent_id : ℕ) (raw : RawCredentials)
    → settings.include_credentials ≡ true
    → 0 < agent_id
    → w.registry.get_agent_credentials agent_id ≡ some raw
    → loaded_for w settings agent_id ≡ some (raw_or_default raw)
unfolding fetch_credentials
loaded_for-some w settings agent_id raw on positive answered =
    rw (on, lt→ltb 0 agent_id positive, answered) refl

-- The credentials meet what `requireAge`, `requireOFAC` and `requireNationality` asked of the builder.
pub record MeetsRequirements (b : VerifierBuilder) (c : AgentCredentials) : Type 0 where
  pub of_age : (age : ℕ) → b.minimum_age ≡ some age → age ≤ c.older_than
  pub screened : b.require_ofac_passed ≡ some true → head_or false c.ofac ≡ true
  pub allowed :
      (n : Text) (ns : List Text)
      → b.allowed_nationalities ≡ some (n ∷ ns)
      → any (λ a. eq_text a c.nationality) (n ∷ ns) ≡ true

requirements_kept :
    (b : VerifierBuilder) (c : AgentCredentials)
    → MeetsCredentials (build b).settings c
    → MeetsRequirements b c
unfolding build new_verifier
requirements_kept b c meets = record {
  of_age = λ age e. meets.of_age age e;
  screened = λ e. meets.screened (rw e refl);
  allowed = λ n ns e. meets.allowed n ns e;
}

-- A verifier that the builder makes with a requirement on the age, the OFAC screening or the
-- nationality enforces it: where it accepts a request of a registered agent and the registry
-- answers with the agent's credentials, these show the age that the builder was given at least, a
-- passed OFAC screening where that was asked for, and one of the listed nationalities.
pub build_enforces :
    (w : World) (params : VerifyParams) (b : VerifierBuilder) (v : Verifier)
    (r : VerificationResult) (raw : RawCredentials)
    → needs_credentials b.minimum_age b.require_ofac_passed b.allowed_nationalities ≡ true
    → v.settings ≡ (build b).settings
    → (verify w params v).0 ≡ some r
    → r.valid ≡ true
    → 0 < r.agent_id
    → w.registry.get_agent_credentials r.agent_id ≡ some raw
    → MeetsRequirements b (raw_or_default raw)
build_enforces w params b v r raw needed e h valid positive answered =
    let accepted = verify-IsAccepted w params v r h valid in
    let on : v.settings.include_credentials ≡ true = rw e (build_includes b needed) in
    requirements_kept b (raw_or_default raw) (
      subst (λ s. MeetsCredentials s (raw_or_default raw)) e
        (accepted.meets (raw_or_default raw)
          (accepted.loaded ∙ loaded_for-some w v.settings r.agent_id raw on positive answered)))
