-- ===== src/Verifier/Flaws.antt =====
-- Requests that prove no signer, and what `verify` answers to them.
use self_agent_id.Base.{
  none, ◌⊎◌, ◌<◌, ◌≢◌, le→ltb, lt→ltb, ℕ, ◌≤◌, ◌≡◌, refl, ◌∙◌, ap, inl, inr, true, false, some,
  Text, Bool-cases, Option-cases,
}
use self_agent_id.Base.Int.{ℤ, abs_diff}
use self_agent_id.Signing.{parse_int}
use self_agent_id.Verifier.{
  Verifier, Failure, timestamp_invalid, missing_agent_key, invalid_ed25519, invalid_signature,
}
use self_agent_id.Verifier.Auth.{
  World, VerifyParams, refused, authenticate, authenticate_ed25519, authenticate_secp256k1,
  ed25519_valid, recover, message_for, is_ed25519, truthy, identify, fail, empty,
}
use self_agent_id.Verifier.Flow.{◌>>=◌}
use self_agent_id.Verifier.Verify.{verify, verify_steps}

-- The timestamp is a number within the maximum age, or is not.
abbrev pub IsTimely : World → ℕ → VerifyParams → Type 0
IsTimely w max_age params =
    (ts : ℤ) × (parse_int params.timestamp ≡ some ts) × (abs_diff w.clock.fresh ts ≤ max_age)

abbrev pub IsUntimely : World → ℕ → VerifyParams → Type 0
IsUntimely w max_age params =
    (parse_int params.timestamp ≡ none)
    ⊎ ((ts : ℤ) × (parse_int params.timestamp ≡ some ts) × (max_age < abs_diff w.clock.fresh ts))

-- What is wrong with a request that proves no signer, and the refusal for it.
pub data Flaw (w : World) (max_age : ℕ) (params : VerifyParams) : Failure → Type 0 where
  untimely : IsUntimely w max_age params → Flaw w max_age params timestamp_invalid
  without_key :
      IsTimely w max_age params
      → is_ed25519 w params.keytype ≡ true
      → truthy params.agent_key ≡ none
      → Flaw w max_age params missing_agent_key
  bad_ed25519 :
      (key : Text)
      → IsTimely w max_age params
      → is_ed25519 w params.keytype ≡ true
      → truthy params.agent_key ≡ some key
      → ed25519_valid w (message_for w params) params.signature key ≢ some true
      → Flaw w max_age params invalid_ed25519
  bad_secp256k1 :
      IsTimely w max_age params
      → is_ed25519 w params.keytype ≡ false
      → recover w (message_for w params) params.signature ≡ none
      → Flaw w max_age params invalid_signature

refused_ed25519 :
    (w : World) (message : Text) (ts : ℤ) (params : VerifyParams) (key : Text)
    → truthy params.agent_key ≡ some key
    → ed25519_valid w message params.signature key ≢ some true
    → authenticate_ed25519 w message ts params ≡ refused invalid_ed25519
unfolding authenticate_ed25519
refused_ed25519 w message ts params key given bad =
    elim (Option-cases (ed25519_valid w message params.signature key)) [
      | inl failed ↦ rw (given, failed, authenticate_ed25519) refl
      | inr (valid, checked) ↦ elim (Bool-cases valid) [
        | inl good ↦ absurd (bad (checked ∙ ap some good))
        | inr wrong ↦ rw (given, checked ∙ ap some wrong, authenticate_ed25519) refl
      ]
    ]

authenticate-Flaw :
    (w : World) (max_age : ℕ) (params : VerifyParams) (f : Failure)
    → Flaw w max_age params f
    → authenticate w max_age params ≡ refused f
unfolding authenticate authenticate_ed25519 authenticate_secp256k1
authenticate-Flaw w max_age params f (untimely (inl unread)) = rw (unread, authenticate) refl
authenticate-Flaw w max_age params f (untimely (inr (ts, parsed, old))) =
    rw (parsed, lt→ltb max_age (abs_diff w.clock.fresh ts) old, authenticate) refl
authenticate-Flaw w max_age params f (without_key (ts, parsed, recent) ed missing) =
    rw
      (
        parsed,
        le→ltb max_age (abs_diff w.clock.fresh ts) recent,
        ed,
        missing,
        authenticate,
        authenticate_ed25519,
      )
      refl
authenticate-Flaw w max_age params f (bad_ed25519 key (ts, parsed, recent) ed given bad) =
    rw
      (
        parsed,
        le→ltb max_age (abs_diff w.clock.fresh ts) recent,
        ed,
        refused_ed25519 w (message_for w params) ts params key given bad,
        authenticate,
      )
      refl
authenticate-Flaw w max_age params f (bad_secp256k1 (ts, parsed, recent) plain failed) =
    rw
      (
        parsed,
        le→ltb max_age (abs_diff w.clock.fresh ts) recent,
        plain,
        failed,
        authenticate,
        authenticate_secp256k1,
      )
      refl

-- A request that proves no signer leaves no trace: where its timestamp is no number or is not within the
-- maximum age, where the Ed25519 key is missing or its signature is not valid, or where no address is
-- recovered from a plain signature, the result is the refusal for that flaw with no agent in it, and
-- all caches, the replay cache and the rate limiter's buckets are as before. The timestamp is judged
-- first, so that for a flaw of the signature it has to be within the maximum age.
pub verify_refuses-Flaw :
    (w : World) (params : VerifyParams) (v : Verifier) (f : Failure)
    → Flaw w v.settings.max_age_ms params f
    → verify w params v ≡ (some (fail f empty), v)
unfolding verify verify_steps identify
verify_refuses-Flaw w params v f flaw =
    rw (authenticate-Flaw w v.settings.max_age_ms params f flaw, ◌>>=◌) refl
