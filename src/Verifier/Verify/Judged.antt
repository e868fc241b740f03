-- ===== src/Verifier/Verify/Judged.antt =====
-- Steps 8 to 11 of `verify`: what they have tested where they accept.
use self_agent_id.Base.{
  ltb, if◌then◌else◌, ◌&&◌, ℕ, ◌≤◌, ◌<◌, ◌≡◌, refl, ◌∙◌, inl, inr, true, false, Option, none, some,
  List, ◌∷◌, Text, eq_text, arith, Bool-cases, head_or, any,
}
use self_agent_id.RateLimiter.{check, RateLimiter}
use self_agent_id.Verifier.{
  Verifier, VerificationResult, ChainStatus, Failure, Settings, AgentCredentials,
  nationality_refused,
}
use self_agent_id.Verifier.Flow.{next, reply, >>=-eq-next, >>=-eq-reply}
use self_agent_id.Verifier.Auth.{Signed, World}
use self_agent_id.Verifier.Chain.{
  report, credentials_failure, first_failure, too_young, nationality_failure,
}
use self_agent_id.Verifier.Verify.{
  fetch_credentials, judge, limit_rate, check_sybil, load_credentials, check_credentials,
  with_credentials, accept,
}
use self_agent_id.Verifier.Verify.Shape
use mathlib.Core.Path.{subst}

-- The credential checks, for credentials that were fetched.
pub record MeetsCredentials (settings : Settings) (c : AgentCredentials) : Type 0 where
  pub of_age : (age : ℕ) → settings.minimum_age ≡ some age → age ≤ c.older_than
  pub screened : settings.require_ofac_passed ≡ true → head_or false c.ofac ≡ true
  pub allowed :
      (n : Text) (ns : List Text)
      → settings.allowed_nationalities ≡ some (n ∷ ns)
      → any (λ a. eq_text a c.nationality) (n ∷ ns) ≡ true

first_failure-none : (f g : Option Failure) → first_failure f g ≡ none → (f ≡ none) × (g ≡ none)
first_failure-none f g h = ground arith

nationality_allowed :
    (n : Text) (ns : List Text) (nationality : Text)
    → nationality_failure (some (n ∷ ns)) nationality ≡ none
    → any (λ a. eq_text a nationality) (n ∷ ns) ≡ true
nationality_allowed n ns nationality h =
    elim (Bool-cases (any (λ a. eq_text a nationality) (n ∷ ns))) [
      | inl listed ↦ listed
      | inr missing ↦ absurd (elim_none (rw missing at h))
    ]
  where
    elim_none : some (nationality_refused nationality) ≡ none → ⊥
    elim_none e = cc

pub credentials_checked :
    (settings : Settings) (c : AgentCredentials)
    → credentials_failure settings (some c) ≡ none
    → MeetsCredentials settings c
unfolding credentials_failure
credentials_checked settings c h = record {
  of_age = λ age e. ground arith;
  screened = λ e. ground arith;
  allowed = λ n ns e.
      let rest = (first_failure-none (too_young settings.minimum_age c.older_than) _ h).1 in
      let last =
        (first_failure-none _ (nationality_failure settings.allowed_nationalities c.nationality)
          rest).1 in
      nationality_allowed n ns c.nationality (rw e at last);
}

-- The credentials that step 9 loads for an agent.
abbrev pub loaded_for : World → Settings → ℕ → Option AgentCredentials
loaded_for w settings agent_id =
    if settings.include_credentials && ltb 0 agent_id then fetch_credentials w agent_id else none

-- What the steps from the chain status on have tested where they accept.
pub record IsJudged (w : World) (s : Signed) (status : ChainStatus) (v : Verifier)
    (r : VerificationResult) : Type 0 where
  pub reported :
      (r.agent_address ≡ s.address) × (r.agent_key ≡ s.key) × (r.agent_id ≡ status.agent_id)
  pub loaded : r.credentials ≡ loaded_for w v.settings status.agent_id
  pub few_agents :
      0 < v.settings.max_agents_per_human → status.agent_count ≤ v.settings.max_agents_per_human
  pub checked : credentials_failure v.settings r.credentials ≡ none
  pub not_limited :
      (limiter : RateLimiter)
      → v.rate_limiter ≡ some limiter
      → (check w.clock.limited s.address limiter).0 ≡ none

finish :
    (w : World) (s : Signed) (status : ChainStatus) (credentials : Option AgentCredentials)
    (v v1 v2 v3 : Verifier) {v4 u : Verifier} {r : VerificationResult} {t : Unit {0}}
    → v1 ≡ v
    → v2 ≡ v1
    → v3 ≡ v2
    → (0 < v.settings.max_agents_per_human → status.agent_count ≤ v.settings.max_agents_per_human)
    → credentials ≡ loaded_for w v1.settings status.agent_id
    → credentials_failure v2.settings credentials ≡ none
    → limit_rate w.clock.limited s.address
        (with_credentials w credentials (report w.clock.expiry s status))
        v3
      ≡ next t v4
    → accept w (with_credentials w credentials (report w.clock.expiry s status)) v4 ≡ next r u
    → IsJudged w s status v r
finish w s status credentials v v1 v2 v3 {r} p q o few loaded checked limited accepted =
    let full = with_credentials w credentials (report w.clock.expiry s status) in
    let same : record full { valid = true } ≡ r = cc in
    let settings : v2.settings ≡ v.settings = cc in
    let settings1 : v1.settings ≡ v.settings = cc in
    let limiters : v3.rate_limiter ≡ v.rate_limiter = cc in
    record {
      reported =
          subst
            (λ x.
              (x.agent_address ≡ s.address)
              × (x.agent_key ≡ s.key)
              × (x.agent_id ≡ status.agent_id))
            same (refl, refl, refl);
      loaded =
          subst (λ x. x.credentials ≡ loaded_for w v.settings status.agent_id) same
            (subst (λ x. credentials ≡ loaded_for w x status.agent_id) settings1 loaded);
      few_agents = few;
      checked =
          subst (λ x. credentials_failure v.settings x.credentials ≡ none) same
            (subst (λ x. credentials_failure x credentials ≡ none) settings checked);
      not_limited = λ limiter e.
          Shape.limit_rate-next w.clock.limited s.address full v3 limited limiter (limiters ∙ e);
    }

pub judge-next :
    (w : World) (s : Signed) (status : ChainStatus) (v : Verifier) {r : VerificationResult}
    {u : Verifier}
    → judge w s status v ≡ next r u
    → IsJudged w s status v r
unfolding judge
judge-next w s status v h =
    let base = report w.clock.expiry s status in
    let (t1, v1, e1, h1) = >>=-eq-next (check_sybil w base status) _ v h in
    let (few, same1) = Shape.check_sybil-next w base status v e1 in
    let (credentials, v2, e2, h2) = >>=-eq-next (load_credentials w status) _ v1 h1 in
    let (loaded, same2) = Shape.load_credentials-next w status v1 e2 in
    let full = with_credentials w credentials base in
    let (t2, v3, e3, h3) = >>=-eq-next (check_credentials w full) _ v2 h2 in
    let (checked, same3) = Shape.check_credentials-next w full v2 e3 in
    let (t3, v4, e4, h4) = >>=-eq-next (limit_rate w.clock.limited s.address full) _ v3 h3 in
    finish w s status credentials v v1 v2 v3 same1 same2 same3 few loaded checked e4 h4

pub judge-reply :
    (w : World) (s : Signed) (status : ChainStatus) (v : Verifier) {r : VerificationResult}
    {u : Verifier}
    → judge w s status v ≡ reply r u
    → r.valid ≡ false
unfolding judge
judge-reply w s status v h =
    let base = report w.clock.expiry s status in
    elim (>>=-eq-reply (check_sybil w base status) _ v h) [
      | inl early ↦ Shape.check_sybil-reply w base status v refl early
      | inr (t1, v1, e1, h1) ↦ elim (>>=-eq-reply (load_credentials w status) _ v1 h1) [
        | inl early ↦ Shape.load_credentials-reply w status v1 early
        | inr (credentials, v2, e2, h2) ↦
            let full = with_credentials w credentials base in
            elim (>>=-eq-reply (check_credentials w full) _ v2 h2) [
              | inl early ↦ Shape.check_credentials-reply w full v2 refl early
              | inr (t2, v3, e3, h3) ↦
                  elim (>>=-eq-reply (limit_rate w.clock.limited s.address full) _ v3 h3) [
                    | inl early ↦
                        Shape.limit_rate-reply w.clock.limited s.address full v3 refl early
                    | inr (t3, v4, e4, h4) ↦ absurd (cc)
                  ]
            ]
      ]
    ]
