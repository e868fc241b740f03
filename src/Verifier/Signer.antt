-- ===== src/Verifier/Signer.antt =====
-- Who `verify` takes for the signer, and what the headers can do to that.
use self_agent_id.Base.{
  ℕ, ◌≤◌, ◌≡◌, refl, sym, ◌∙◌, ap, inl, inr, true, false, Option, some, Text, arith, Bool-cases,
  Option-cases, ltb, if◌then◌else◌,
}
use mathlib.Core.Path.{subst}
use self_agent_id.Base.Int.{ℤ, abs_diff}
use self_agent_id.Signing.{parse_int}
use self_agent_id.Verifier.{Verifier}
use self_agent_id.Verifier.Auth.{
  World, VerifyParams, Signed, signed, authenticate, authenticate_ed25519, authenticate_secp256k1,
  ed25519_valid, derive_address, recover, message_for, is_ed25519, truthy, identify,
}
use self_agent_id.Verifier.Flow.{◌>>=◌}
use self_agent_id.Verifier.Verify.{verify, verify_steps}

-- A signer that is proved by a secp256k1 signature: recovered from it.
pub record IsRecovered (w : World) (params : VerifyParams) (s : Signed) : Type 0 where
  pub address : recover w s.message params.signature ≡ some s.address
  pub key : s.key ≡ w.ethers.zero_pad_value s.address 32

-- A signer that is proved by an Ed25519 signature: of the key in the header, from which the
-- address is derived.
pub record IsEd25519 (w : World) (params : VerifyParams) (s : Signed) : Type 0 where
  pub header : truthy params.agent_key ≡ some s.key
  pub valid : ed25519_valid w s.message params.signature s.key ≡ some true
  pub address : derive_address w s.key ≡ some s.address

IsEd25519-signed :
    (w : World) (message : Text) (ts : ℤ) (params : VerifyParams) (s : Signed)
    → authenticate_ed25519 w message ts params ≡ signed s
    → (s.message ≡ message) × (s.ts ≡ ts) × IsEd25519 w params s
unfolding authenticate_ed25519
IsEd25519-signed w message ts params s h = elim (Option-cases (truthy params.agent_key)) [
  | inl missing ↦ absurd (ground arith)
  | inr (key, given) ↦ elim (Option-cases (ed25519_valid w message params.signature key)) [
    | inl failed ↦ absurd (ground arith)
    | inr (valid, checked) ↦ elim (Bool-cases valid) [
      | inr invalid ↦ absurd (ground arith)
      | inl good ↦ elim (Option-cases (derive_address w key)) [
        | inl failed ↦ absurd (ground arith)
        | inr (address, derived) ↦
            let found : Signed = record {
              address = address;
              key = key;
              message = message;
              ts = ts;
            } in
            let e : found ≡ s = ground arith in
            subst (λ x. (x.message ≡ message) × (x.ts ≡ ts) × IsEd25519 w params x) e
              (
                refl,
                refl,
                record { header = given; valid = checked ∙ ap some good; address = derived },
              )
      ]
    ]
  ]
]

IsRecovered-signed :
    (w : World) (message : Text) (ts : ℤ) (params : VerifyParams) (s : Signed)
    → authenticate_secp256k1 w message ts params ≡ signed s
    → (s.message ≡ message) × (s.ts ≡ ts) × IsRecovered w params s
unfolding authenticate_secp256k1
IsRecovered-signed w message ts params s h =
    elim (Option-cases (recover w message params.signature)) [
      | inl failed ↦ absurd (ground arith)
      | inr (address, recovered) ↦
          let found : Signed = record {
            address = address;
            key = w.ethers.zero_pad_value address 32;
            message = message;
            ts = ts;
          } in
          let e : found ≡ s = ground arith in
          subst (λ x. (x.message ≡ message) × (x.ts ≡ ts) × IsRecovered w params x) e
            (refl, refl, record { address = recovered; key = refl })
    ]

-- `authenticate` proves a signer only for a timestamp within the maximum age, and then the signed
-- message is the one of this timestamp, method, URL and body. Without the Ed25519 key type the
-- address is recovered from the signature and the key is made from it; with it the signature
-- verifies under the key of the header, and the address is derived from that key.
pub authenticate-signed :
    (w : World) (max_age : ℕ) (params : VerifyParams) (s : Signed)
    → authenticate w max_age params ≡ signed s
    → (parse_int params.timestamp ≡ some s.ts)
      × (abs_diff w.clock.fresh s.ts ≤ max_age)
      × (s.message ≡ message_for w params)
      × (if is_ed25519 w params.keytype then IsEd25519 w params s else IsRecovered w params s)
unfolding authenticate
authenticate-signed w max_age params s h = elim (Option-cases (parse_int params.timestamp)) [
  | inl invalid ↦ absurd (ground arith)
  | inr (ts, parsed) ↦ elim (Bool-cases (ltb max_age (abs_diff w.clock.fresh ts))) [
    | inl old ↦ absurd (ground arith)
    | inr recent ↦ elim (Bool-cases (is_ed25519 w params.keytype)) [
      | inl ed ↦
          let (message, same, proved) =
            IsEd25519-signed w (message_for w params) ts params s (ground arith) in
          (parsed ∙ ap some (sym same), rw same (ground arith), message, rw ed proved)
      | inr plain ↦
          let (message, same, proved) =
            IsRecovered-signed w (message_for w params) ts params s (ground arith) in
          (parsed ∙ ap some (sym same), rw same (ground arith), message, rw plain proved)
    ]
  ]
]

authenticate_plain :
    (w : World) (max_age : ℕ) (params : VerifyParams) (header : Option Text)
    → is_ed25519 w params.keytype ≡ false
    → authenticate w max_age (record params { agent_key = header }) ≡ authenticate w max_age params
unfolding authenticate authenticate_secp256k1 message_for
authenticate_plain w max_age params header plain =
    elim (Option-cases (parse_int params.timestamp)) [
      | inl invalid ↦ rw (invalid, authenticate) refl
      | inr (ts, parsed) ↦ rw (parsed, plain, authenticate) refl
    ]

-- Without the Ed25519 key type the key header changes nothing, neither the result nor the caches.
pub verify_ignores_key_header :
    (w : World) (params : VerifyParams) (v : Verifier) (header : Option Text)
    → is_ed25519 w params.keytype ≡ false
    → verify w (record params { agent_key = header }) v ≡ verify w params v
unfolding verify verify_steps identify
verify_ignores_key_header w params v header plain =
    rw (authenticate_plain w v.settings.max_age_ms params header plain, ◌>>=◌) refl
