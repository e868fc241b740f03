-- ===== src/AgentSdk.antt =====
-- typescript-sdk/src/SelfAgent.ts and typescript-sdk/src/Ed25519Agent.ts: an agent's side of the
-- protocol. It signs requests and looks itself up. Wallets and the Ed25519 functions are parameters.
pub mod Signs
pub mod Ed25519
pub mod Expiry
mod Examples
use self_agent_id.Base.{
  ℕ, ◌+◌, ◌-◌, ◌/◌, ◌%◌, Bool, true, false, ◌&&◌, Option, none, some, List, [], ◌∷◌, ◌++◌, Text,
  codes, ltb, leb, ◌==◌, if◌then◌else◌, get_or_else, to_upper, print_nat, get, is_some,
}
use self_agent_id.Base.Int.{ℤ, pos, negsuc}
use self_agent_id.Signing.{Ethers, UrlParser, compute_signing_message}
use self_agent_id.Registry.{Registry, NetworkName, networks, default_network}
use self_agent_id.Verifier.Auth.{VerifyParams, truthy, last_forty}
use self_agent_id.Middleware.{signature_header, timestamp_header, keytype_header, key_header}

abbrev pub address_header : Text
address_header = codes "x-self-agent-address"

-- An `ethers.Signer` with its address; `none` is a rejected signature.
pub record Wallet : Type 0 where
  pub address : Text
  pub sign_message : List ℕ → Option Text

pub record SelfAgentConfig : Type 0 where
  pub private_key : Option Text
  pub signer : Option Wallet
  pub network : Option NetworkName
  pub registry_address : Option Text
  pub rpc_url : Option Text

-- The registry is kept as its address and the URL of its node.
pub record SelfAgent : Type 0 where
  pub wallet : Wallet
  pub registry_address : Text
  pub rpc_url : Text
  pub agent_key : Text

pub record AgentInfo : Type 0 where
  pub address : Text
  pub agent_key : Text
  pub agent_id : ℕ
  pub is_verified : Bool
  pub nullifier : ℕ
  pub agent_count : ℕ
  pub proof_expires_at : ℕ
  pub is_proof_fresh : Bool
  pub days_until_expiry : ℤ
  pub is_expiring_soon : Bool
  pub sibling_agent_ids : List ℕ

-- The wallet that a configuration means: `wallet_of` is `new ethers.Wallet`, `none` a thrown error.
abbrev pub wallet_for : (Text → Option Wallet) → SelfAgentConfig → Option Wallet
wallet_for wallet_of config = elim config.signer [
  | some signer ↦ some signer
  | none ↦ elim (truthy config.private_key) [ none ↦ none | some key ↦ wallet_of key ]
]

abbrev agent_with : Ethers → SelfAgentConfig → Wallet → SelfAgent
unfolding networks
agent_with ethers config wallet = record {
  wallet = wallet;
  registry_address =
      get_or_else config.registry_address
        (networks (get_or_else config.network default_network)).registry_address;
  rpc_url =
      get_or_else config.rpc_url (networks (get_or_else config.network default_network)).rpc_url;
  agent_key = ethers.zero_pad_value wallet.address 32;
}

unfoldable pub new_self_agent : Ethers → (Text → Option Wallet) → SelfAgentConfig → Option SelfAgent
unfolding agent_with
new_self_agent ethers wallet_of config = elim (wallet_for wallet_of config) [
  | none ↦ none
  | some wallet ↦ some (agent_with ethers config wallet)
]

infixl 5 ◌>>=◌
abbrev ◌>>=◌ {ℓ κ} : {A : Type ℓ} {B : Type κ} → Option A → (A → Option B) → Option B
none >>= f = none
some a >>= f = f a

-- `Number((a - b) / 86400n)`: the division of bigints rounds towards zero.
unfoldable pub days_between : ℕ → ℕ → ℤ
days_between a b =
    if leb b a
    then pos ((a - b) / 86400)
    else (if (b - a) / 86400 == 0 then pos 0 else negsuc ((b - a) / 86400 - 1))

abbrev pub days_left : ℕ → ℕ → ℤ
unfolding days_between
days_left expires now = if ltb 0 expires then days_between expires now else negsuc 0

abbrev pub in_month : ℤ → Bool
in_month (pos days) = leb days 30
in_month (negsuc n) = false

-- The info of an agent whose id is zero: it is not registered.
abbrev pub unregistered : Text → Text → AgentInfo
unregistered address key = record {
  address = address;
  agent_key = key;
  agent_id = 0;
  is_verified = false;
  nullifier = 0;
  agent_count = 0;
  proof_expires_at = 0;
  is_proof_fresh = false;
  days_until_expiry = negsuc 0;
  is_expiring_soon = false;
  sibling_agent_ids = [];
}

-- The calls for a registered agent; `now` is in milliseconds.
unfoldable pub registered_info : Registry → ℕ → Text → Text → ℕ → Option AgentInfo
registered_info registry now address key agent_id = do
  verified ← registry.has_human_proof agent_id
  n ← registry.get_human_nullifier agent_id
  count ← registry.get_agent_count_for_human n
  expires ← registry.proof_expires_at agent_id
  fresh ← registry.is_proof_fresh agent_id
  siblings ← registry.get_agents_for_nullifier n
  some (record {
    address = address;
    agent_key = key;
    agent_id = agent_id;
    is_verified = verified;
    nullifier = n;
    agent_count = count;
    proof_expires_at = expires;
    is_proof_fresh = fresh;
    days_until_expiry = days_left expires (now / 1000);
    is_expiring_soon = in_month (days_left expires (now / 1000));
    sibling_agent_ids = siblings;
  })

-- `getInfo`
unfoldable pub get_info : Registry → ℕ → SelfAgent → Option AgentInfo
unfolding registered_info
get_info registry now agent = elim (registry.get_agent_id agent.agent_key) [
  | none ↦ none
  | some agent_id ↦
      if agent_id == 0
      then some (unregistered agent.wallet.address agent.agent_key)
      else registered_info registry now agent.wallet.address agent.agent_key agent_id
]

-- `isRegistered`
unfoldable pub is_registered : Registry → SelfAgent → Option Bool
is_registered registry agent = registry.is_verified_agent agent.agent_key

abbrev pub Headers : Type 0
Headers = List (Text × Text)

module _ (ethers : Ethers) (parser : UrlParser) (now : ℕ) where
  -- `SelfAgent.signRequest`; `none` is a thrown error.
  unfoldable pub sign_request : SelfAgent → Text → Text → Option Text → Option Headers
  sign_request agent method url body =
      let message = compute_signing_message ethers parser (print_nat now) method url body in
      elim (ethers.get_bytes message) [
        | none ↦ none
        | some bytes ↦ elim (agent.wallet.sign_message bytes) [
          | none ↦ none
          | some signature ↦ some (
              (address_header, agent.wallet.address)
              ∷ (signature_header, signature)
              ∷ (timestamp_header, print_nat now)
              ∷ [])
        ]
      ]

-- The Ed25519 agent: its keys, and the Ed25519 signature of a message with a private key.
pub record Ed25519Agent : Type 0 where
  pub private_key_bytes : List ℕ
  pub public_key_bytes : List ℕ
  pub agent_key : Text
  pub address : Text

abbrev pub hex_digit : ℕ → ℕ
hex_digit d = if ltb d 10 then b'0' + d else b'a' + (d - 10)

-- `bytesToHex`, of bytes below 256
unfoldable pub bytes_to_hex : List ℕ → Text
bytes_to_hex [] = []
bytes_to_hex (b ∷ bytes) = hex_digit (b / 16) ∷ hex_digit (b % 16) ∷ bytes_to_hex bytes

-- `Ed25519Agent.deriveAddress`, of the bytes of a key
unfoldable pub derive_key_address : Ethers → List ℕ → Option Text
derive_key_address ethers public_key =
    ethers.get_address (codes "0x" ++ last_forty (ethers.keccak256 public_key))

-- The fields that the constructor of the Ed25519 agent computes from the bytes of the private key.
unfoldable pub ed25519_agent : Ethers → (List ℕ → List ℕ) → List ℕ → Option Ed25519Agent
unfolding bytes_to_hex derive_key_address
ed25519_agent ethers get_public_key private_key =
    elim (derive_key_address ethers (get_public_key private_key)) [
      | none ↦ none
      | some address ↦ some (record {
        private_key_bytes = private_key;
        public_key_bytes = get_public_key private_key;
        agent_key = codes "0x" ++ bytes_to_hex (get_public_key private_key);
        address = address;
      })
    ]

-- `Ed25519Agent.signRequest`, where `sign` is `ed.signAsync`.
unfoldable pub ed25519_sign_request :
    Ethers
    → UrlParser
    → ℕ
    → (List ℕ → List ℕ → List ℕ)
    → Ed25519Agent
    → Text
    → Text
    → Option Text
    → Option Headers
unfolding bytes_to_hex
ed25519_sign_request ethers parser now sign agent method url body =
    elim (ethers.get_bytes
      (compute_signing_message ethers parser (print_nat now) method url body)) [
        | none ↦ none
        | some bytes ↦ some (
            (key_header, agent.agent_key)
            ∷ (keytype_header, codes "ed25519")
            ∷ (signature_header, codes "0x" ++ bytes_to_hex (sign bytes agent.private_key_bytes))
            ∷ (timestamp_header, print_nat now)
            ∷ [])
      ]

-- What a server reads from the headers and the request, for its verifier.
unfoldable pub received : Headers → Text → Text → Option Text → VerifyParams
received headers method url body = record {
  signature = get_or_else (get signature_header headers) [];
  timestamp = get_or_else (get timestamp_header headers) [];
  method = method;
  url = url;
  body = body;
  keytype = get keytype_header headers;
  agent_key = get key_header headers;
}
