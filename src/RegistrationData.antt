-- ===== src/RegistrationData.antt =====
-- typescript-sdk/src/registration.ts: the data that the Self app passes to the registry contract for a
-- registration or deregistration. `none` is a thrown error; the ethers package is a parameter.
pub mod Binary
pub mod Layout
pub mod WalletFree
mod Examples
use self_agent_id.Base.{
  ℕ, zero, suc, ◌+◌, ◌*◌, ◌/◌, ◌%◌, Bool, true, false, Option, none, some, List, [], ◌∷◌, ◌++◌, map,
  Text, codes, leb, ltb, ◌==◌, ◌&&◌, ◌||◌, if◌then◌else◌, get_or_else, drop, to_lower, print_nat,
  length, ◌>>=◌,
}
use self_agent_id.AgentSdk.{hex_digit}

pub data MinimumAge : Type 0 where
  no_minimum eighteen twenty_one : MinimumAge

pub record RegistrationDisclosures : Type 0 where
  pub minimum_age : Option MinimumAge
  pub ofac : Option Bool

pub record RegistrationSignatureParts : Type 0 where
  pub r : Text
  pub s : Text
  pub v : ℕ

-- A signature as its hex text or in parts.
pub data SignatureInput : Type 0 where
  whole : Text → SignatureInput
  parts : RegistrationSignatureParts → SignatureInput

-- What the code calls of ethers; `sign_message` is a wallet's, made from the private key.
pub record Ethers : Type 0 where
  pub get_address : Text → Option Text
  pub signature_from : Text → Option RegistrationSignatureParts
  pub get_bytes : Text → Option (List ℕ)
  pub concat : List (List ℕ) → Text
  -- `solidityPacked` of the types string, address, uint256, address and uint256.
  pub solidity_packed : Text → Text → ℕ → Text → ℕ → List ℕ
  pub keccak256 : List ℕ → Text
  pub wallet_address : Text → Option Text
  pub sign_message : Text → List ℕ → Option Text

abbrev pub zero_address : Text
zero_address = codes "0x0000000000000000000000000000000000000000"

abbrev pub index_of : MinimumAge → Bool → ℕ
index_of eighteen true = 4
index_of twenty_one true = 5
index_of eighteen false = 1
index_of twenty_one false = 2
index_of no_minimum true = 3
index_of no_minimum false = 0

unfoldable pub to_config_index : RegistrationDisclosures → ℕ
to_config_index disclosures =
    index_of (get_or_else disclosures.minimum_age no_minimum) (get_or_else disclosures.ofac false)

unfoldable pub assert_config_index : ℕ → Option ℕ
assert_config_index idx = if ltb 5 idx then none else some idx

unfoldable pub normalize_v : ℕ → Option ℕ
normalize_v v =
    if v == 27 || v == 28 then some v else (if v == 0 || v == 1 then some (v + 27) else none)

-- `String(configIndex)`
unfoldable pub config_digit : ℕ → Option Text
unfolding assert_config_index print_nat
config_digit config_index = do idx ← assert_config_index config_index; some (print_nat idx)

unfoldable pub number_to_one_byte : ℕ → Option (List ℕ)
number_to_one_byte value = if ltb 255 value then none else some (value ∷ [])

-- `v.toString(16).padStart(2, "0")` of a number below 256
unfoldable pub hex_byte : ℕ → Text
hex_byte v = hex_digit (v / 16) ∷ hex_digit (v % 16) ∷ []

-- The first byte of the binary data.
pub data Action : Type 0 where
  register deregister register_advanced deregister_advanced register_wallet_free : Action

abbrev pub action_byte : Action → ℕ
action_byte register = 1
action_byte deregister = 2
action_byte register_advanced = 3
action_byte deregister_advanced = 4
action_byte register_wallet_free = 5

-- The first character of the ASCII data.
abbrev pub ascii_action : Action → ℕ
ascii_action register = b'R'
ascii_action deregister = b'D'
ascii_action register_advanced = b'K'
ascii_action deregister_advanced = b'X'
ascii_action register_wallet_free = b'W'

pub record RegistrationChallengeInput : Type 0 where
  pub human_identifier : Text
  pub chain_id : ℕ
  pub registry_address : Text
  pub nonce : ℕ

pub record SignedRegistrationChallenge : Type 0 where
  pub message_hash : Text
  pub signature : Text
  pub signature_parts : RegistrationSignatureParts
  pub agent_address : Text

abbrev pub zeros : ℕ → Text
zeros zero = []
zeros (suc n) = b'0' ∷ zeros n

-- `hex.slice(2).toLowerCase()`
abbrev pub hex_part : Text → Text
hex_part hex = to_lower (drop 2 hex)

-- The parts of a signature as hex digits, one after the other.
abbrev pub signature_text : RegistrationSignatureParts → Text
signature_text sig = hex_part sig.r ++ (hex_part sig.s ++ hex_byte sig.v)

-- `buildSimpleRegisterUserDataAscii` and `buildSimpleDeregisterUserDataAscii`, by their action.
unfoldable pub simple_ascii : Action → RegistrationDisclosures → Option Text
unfolding config_digit to_config_index
simple_ascii action disclosures = do
  idx ← config_digit (to_config_index disclosures)
  some (ascii_action action ∷ idx)

module _ (ethers : Ethers) where
  unfoldable pub with_normal_v : RegistrationSignatureParts → Option RegistrationSignatureParts
  unfolding normalize_v
  with_normal_v sig = do v ← normalize_v sig.v; some (record { r = sig.r; s = sig.s; v = v })

  unfoldable pub signature_parts : SignatureInput → Option RegistrationSignatureParts
  unfolding with_normal_v
  signature_parts (whole signature) = do sig ← ethers.signature_from signature; with_normal_v sig
  signature_parts (parts sig) = with_normal_v sig

  unfoldable pub address_hex : Text → Option Text
  unfolding to_lower
  address_hex address = do normal ← ethers.get_address address; some (hex_part normal)

  unfoldable pub bytes32 : Text → Option (List ℕ)
  bytes32 value = do b ← ethers.get_bytes value; if length b == 32 then some b else none

  unfoldable pub compute_registration_challenge_hash : RegistrationChallengeInput → Option Text
  compute_registration_challenge_hash input = do
    human ← ethers.get_address input.human_identifier
    registry ← ethers.get_address input.registry_address
    some (
        ethers.keccak256 (
          ethers.solidity_packed (codes "self-agent-id:register:") human input.chain_id registry
            input.nonce))

  unfoldable pub sign_registration_challenge :
      Text → RegistrationChallengeInput → Option SignedRegistrationChallenge
  unfolding compute_registration_challenge_hash with_normal_v
  sign_registration_challenge agent_private_key input = do
    agent_address ← ethers.wallet_address agent_private_key
    message_hash ← compute_registration_challenge_hash input
    message ← ethers.get_bytes message_hash
    signature ← ethers.sign_message agent_private_key message
    sig ← ethers.signature_from signature
    normal ← with_normal_v sig
    some (record {
      message_hash = message_hash;
      signature = signature;
      signature_parts = normal;
      agent_address = agent_address;
    })

  unfoldable pub build_advanced_register_user_data_ascii :
      Text → SignatureInput → RegistrationDisclosures → Option Text
  unfolding config_digit to_config_index signature_parts address_hex hex_byte to_lower
  build_advanced_register_user_data_ascii agent_address signature disclosures = do
    idx ← config_digit (to_config_index disclosures)
    sig ← signature_parts signature
    agent ← address_hex agent_address
    some (ascii_action register_advanced ∷ (idx ++ (agent ++ signature_text sig)))

  unfoldable pub build_advanced_deregister_user_data_ascii :
      Text → RegistrationDisclosures → Option Text
  unfolding config_digit to_config_index address_hex
  build_advanced_deregister_user_data_ascii agent_address disclosures = do
    idx ← config_digit (to_config_index disclosures)
    agent ← address_hex agent_address
    some (ascii_action deregister_advanced ∷ (idx ++ agent))

  -- A guardian that is missing or empty is forty zeros.
  abbrev pub guardian_hex : Option Text → Option Text
  guardian_hex none = some (zeros 40)
  guardian_hex (some []) = some (zeros 40)
  guardian_hex (some (c ∷ address)) = address_hex (c ∷ address)

  unfoldable pub build_wallet_free_register_user_data_ascii :
      Text → (guardian : Option Text) → SignatureInput → RegistrationDisclosures → Option Text
  unfolding config_digit to_config_index signature_parts address_hex hex_byte to_lower
  build_wallet_free_register_user_data_ascii agent_address guardian_address signature disclosures =
      do
        idx ← config_digit (to_config_index disclosures)
        guardian ← guardian_hex guardian_address
        sig ← signature_parts signature
        agent ← address_hex agent_address
        some (
            ascii_action register_wallet_free
            ∷ (idx ++ (agent ++ (guardian ++ signature_text sig))))
