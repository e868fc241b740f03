-- ===== src/VerifyAgent.antt =====
-- typescript-sdk/src/SelfAgentVerifier.ts: the standalone `verifyAgent`, and typescript-sdk/src/types.ts:
-- its result and `isProofExpiringSoon`. A `Date` is its milliseconds.
pub mod Expiry
mod Examples
use self_agent_id.Base.{
  ℕ, ◌+◌, ◌-◌, ◌*◌, ◌/◌, Bool, true, false, ◌&&◌, ◌||◌, Option, none, some, List, [], ◌∷◌, ◌++◌,
  Text, codes, ◌==◌, ltb, leb, get_or_else, if◌then◌else◌, or_else, length, eq_text, to_lower,
  print_nat, is_digit,
}
use self_agent_id.Registry.{
  Registry, NetworkName, mainnet, testnet, networks, default_network, reauth_base_url,
}

pub data VerifyResult : Type 0 where
  verified : ℕ → Option ℕ → VerifyResult
  not_registered no_human_proof : VerifyResult
  proof_expired : ℕ → Text → VerifyResult

-- A `TypeError` for the key, or the error of a call of the registry.
pub data LookupError : Type 0 where
  malformed_key rpc_error : LookupError

pub data Lookup : Type 0 where
  returned : VerifyResult → Lookup
  threw : LookupError → Lookup

pub record Options : Type 0 where
  pub chain_id : ℕ
  pub registry_address : Text
  pub reauth_base_url : Option Text

unfoldable pub expiry_warning_threshold_secs : ℕ
expiry_warning_threshold_secs = 30 * 24 * 60 * 60

-- `isProofExpiringSoon`, at the time `now` in milliseconds: the number of seconds is a fraction, so
-- the comparisons are multiplied by a thousand.
unfoldable pub is_proof_expiring_soon : ℕ → ℕ → ℕ → Bool
is_proof_expiring_soon now expires_at threshold_secs =
    ltb now expires_at && ltb expires_at (now + threshold_secs * 1000)

unfoldable pub build_reauth_url : ℕ → Options → Text
build_reauth_url agent_id options =
    get_or_else options.reauth_base_url reauth_base_url
    ++ (codes "/reauth?agentId="
        ++ (print_nat agent_id
            ++ (codes "&chainId="
                ++ (print_nat options.chain_id
                    ++ (codes "&registry=" ++ options.registry_address)))))

abbrev pub is_hex : ℕ → Bool
is_hex c = is_digit c || (leb b'a' c && leb c b'f') || (leb b'A' c && leb c b'F')

abbrev pub all_hex : Text → Bool
all_hex [] = true
all_hex (c ∷ s) = is_hex c && all_hex s

-- `/^0x[0-9a-fA-F]{64}$/`
unfoldable pub is_agent_key : Text → Bool
is_agent_key (zero_code ∷ x ∷ hex) =
    (zero_code == b'0') && (x == b'x') && (length hex == 64) && all_hex hex
is_agent_key _ = false

abbrev pub same_address : Text → Text → Bool
same_address a b = eq_text (to_lower a) (to_lower b)

-- The RPC URL of the network whose registry is meant.
unfoldable pub network_rpc_url : Text → Option Text
unfolding networks
network_rpc_url registry_address =
    if same_address (networks mainnet).registry_address registry_address
    then some (networks mainnet).rpc_url
    else (if same_address (networks testnet).registry_address registry_address
        then some (networks testnet).rpc_url
        else none)

unfoldable pub resolve_rpc_url : Option Text → Text → Text
unfolding network_rpc_url networks
resolve_rpc_url rpc_url registry_address =
    get_or_else (or_else rpc_url (network_rpc_url registry_address))
      (networks default_network).rpc_url

-- Step 3, for an agent with a proof.
unfoldable pub check_expiry : ℕ → Options → ℕ → ℕ → VerifyResult
unfolding build_reauth_url
check_expiry now options agent_id expires_at_secs =
    if ltb 0 expires_at_secs && leb expires_at_secs (now / 1000)
    then proof_expired (expires_at_secs * 1000) (build_reauth_url agent_id options)
    else verified agent_id (if ltb 0 expires_at_secs then some (expires_at_secs * 1000) else none)

-- Steps 1 to 3 on the contract at the address.
unfoldable pub look_up : ℕ → Registry → Text → Options → Lookup
unfolding check_expiry
look_up now registry agent_key options = elim (registry.get_agent_id agent_key) [
  | none ↦ threw rpc_error
  | some agent_id ↦
      if agent_id == 0 then returned not_registered else elim (registry.has_human_proof agent_id) [
        | none ↦ threw rpc_error
        | some false ↦ returned no_human_proof
        | some true ↦ elim (registry.proof_expires_at agent_id) [
          | none ↦ threw rpc_error
          | some expires_at_secs ↦ returned (check_expiry now options agent_id expires_at_secs)
        ]
      ]
]

-- `verifyAgent`, where `contract` gives the registry at an address that a node serves.
unfoldable pub verify_agent : ℕ → (Text → Text → Registry) → Text → Options → Option Text → Lookup
unfolding is_agent_key resolve_rpc_url look_up
verify_agent now contract agent_key options rpc_url =
    if is_agent_key agent_key
    then look_up now
        (contract (resolve_rpc_url rpc_url options.registry_address) options.registry_address)
        agent_key options
    else threw malformed_key
