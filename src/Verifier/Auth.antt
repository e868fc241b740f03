-- ===== src/Verifier/Auth.antt =====
-- typescript-sdk/src/SelfAgentVerifier.ts: steps 1 to 5 of `verify`, which prove who signed the
-- request. Each reading of `Date.now()` is a field of `Clock`, and `none` of the registry rejects a call.
use self_agent_id.Base.{
  ℕ, ◌-◌, Bool, true, false, Option, none, some, ◌++◌, Text, codes, ltb, if◌then◌else◌, is_empty,
  length, drop, eq_text,
}
use self_agent_id.Base.Int.{ℤ, abs_diff}
use self_agent_id.Signing.{
  Ethers, UrlParser, canonicalize_signing_url, compute_signing_message, parse_int,
}
use self_agent_id.Registry.{Registry}
use self_agent_id.Verifier.{
  VerificationResult, Failure, timestamp_invalid, missing_agent_key, invalid_ed25519,
  invalid_signature,
}
use self_agent_id.Verifier.Flow.{next, reply, raise, M}

-- The readings of the clock in one call of `verify`, in milliseconds, in the order of the code.
pub record Clock : Type 0 where
  pub fresh : ℕ
  pub replay : ℕ
  pub cached : ℕ
  pub stored : ℕ
  pub expiry : ℕ
  pub provider_cached : ℕ
  pub provider_stored : ℕ
  pub limited : ℕ

-- What the code does not implement: the libraries, the chain and the clock.
pub record World : Type 0 where
  pub ethers : Ethers
  pub parser : UrlParser
  pub registry : Registry
  pub clock : Clock

pub record VerifyParams : Type 0 where
  pub signature : Text
  pub timestamp : Text
  pub method : Text
  pub url : Text
  pub body : Option Text
  pub keytype : Option Text
  pub agent_key : Option Text

pub record Signed : Type 0 where
  pub address : Text
  pub key : Text
  pub message : Text
  pub ts : ℤ

-- The result of the steps that need no state: a refusal, a thrown error, or a proved signer.
pub data Auth : Type 0 where
  refused : Failure → Auth
  thrown : Auth
  signed : Signed → Auth

abbrev pub zero_address : Text
zero_address = codes "0x0000000000000000000000000000000000000000"

abbrev pub zero_hash : Text
zero_hash = codes "0x0000000000000000000000000000000000000000000000000000000000000000"

abbrev pub empty : VerificationResult
empty = record {
  valid = false;
  agent_address = zero_address;
  agent_key = zero_hash;
  agent_id = 0;
  agent_count = 0;
  nullifier = 0;
  credentials = none;
  error = none;
  retry_after_ms = none;
  proof_expires_at = none;
  days_until_expiry = none;
  is_expiring_soon = none;
}

abbrev pub fail : Failure → VerificationResult → VerificationResult
fail failure result = record result { error = some failure }

-- `!value` of a string that may be missing
abbrev pub truthy : Option Text → Option Text
truthy none = none
truthy (some s) = if is_empty s then none else some s

-- `hash.slice(-40)`
abbrev pub last_forty : Text → Text
last_forty hash = drop (length hash - 40) hash

module _ (w : World) where
  open w use {ethers, parser, registry, clock}

  -- The call of `ed.verifyAsync` on the decoded bytes; `none` is an error of any of the four.
  unfoldable pub ed25519_valid : Text → Text → Text → Option Bool
  ed25519_valid message signature key = elim (ethers.get_bytes message) [
    | none ↦ none
    | some msg_bytes ↦ elim (ethers.get_bytes signature) [
      | none ↦ none
      | some sig_bytes ↦ elim (ethers.get_bytes key) [
        | none ↦ none
        | some pubkey_bytes ↦ ethers.verify_ed25519 sig_bytes msg_bytes pubkey_bytes
      ]
    ]
  ]

  -- The address that belongs to an Ed25519 key.
  unfoldable pub derive_address : Text → Option Text
  derive_address key = elim (ethers.get_bytes key) [
    | none ↦ none
    | some pubkey_bytes ↦
        ethers.get_address (codes "0x" ++ last_forty (ethers.keccak256 pubkey_bytes))
  ]

  unfoldable pub authenticate_ed25519 : Text → ℤ → VerifyParams → Auth
  authenticate_ed25519 message ts params = elim (truthy params.agent_key) [
    | none ↦ refused missing_agent_key
    | some key ↦ elim (ed25519_valid message params.signature key) [
      | none ↦ refused invalid_ed25519
      | some false ↦ refused invalid_ed25519
      | some true ↦ elim (derive_address key) [
        | none ↦ thrown
        | some address ↦
            signed (record { address = address; key = key; message = message; ts = ts })
      ]
    ]
  ]

  -- `ethers.verifyMessage(ethers.getBytes(message), signature)`
  unfoldable pub recover : Text → Text → Option Text
  recover message signature = elim (ethers.get_bytes message) [
    | none ↦ none
    | some msg_bytes ↦ ethers.verify_message msg_bytes signature
  ]

  unfoldable pub authenticate_secp256k1 : Text → ℤ → VerifyParams → Auth
  authenticate_secp256k1 message ts params = elim (recover message params.signature) [
    | none ↦ refused invalid_signature
    | some address ↦ signed (record {
      address = address;
      key = ethers.zero_pad_value address 32;
      message = message;
      ts = ts;
    })
  ]

  abbrev pub is_ed25519 : Option Text → Bool
  is_ed25519 none = false
  is_ed25519 (some keytype) = eq_text keytype (codes "ed25519")

  unfoldable pub message_for : VerifyParams → Text
  message_for params =
      compute_signing_message ethers parser params.timestamp params.method
        (canonicalize_signing_url parser params.url) params.body

  unfoldable pub authenticate : ℕ → VerifyParams → Auth
  authenticate max_age_ms params = elim (parse_int params.timestamp) [
    | none ↦ refused timestamp_invalid
    | some ts ↦
        if ltb max_age_ms (abs_diff clock.fresh ts)
        then refused timestamp_invalid
        else (if is_ed25519 params.keytype
            then authenticate_ed25519 (message_for params) ts params
            else authenticate_secp256k1 (message_for params) ts params)
  ]

  abbrev pub lift_auth : Auth → M Signed
  lift_auth (refused failure) v = reply (fail failure empty) v
  lift_auth thrown v = raise v
  lift_auth (signed s) v = next s v

  -- Steps 1 to 5 of `verify`.
  unfoldable pub identify : VerifyParams → M Signed
  identify params v = lift_auth (authenticate v.settings.max_age_ms params) v
