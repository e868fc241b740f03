-- ===== src/Registry.antt =====
-- typescript-sdk/src/contract-types.ts and the network table of typescript-sdk/src/constants.ts:
-- the calls of the on-chain registry, each a parameter whose `none` is a rejected call.
use self_agent_id.Base.{ℕ, ◌*◌, Bool, Option, List, Text, codes}

-- What `getAgentCredentials` returns; a field may be missing.
pub record RawCredentials : Type 0 where
  pub issuing_state : Option Text
  pub name : Option (List Text)
  pub id_number : Option Text
  pub nationality : Option Text
  pub date_of_birth : Option Text
  pub gender : Option Text
  pub expiry_date : Option Text
  pub older_than : Option ℕ
  pub ofac : Option (List Bool)

pub record Registry : Type 0 where
  pub is_verified_agent : Text → Option Bool
  pub get_agent_id : Text → Option ℕ
  pub is_proof_fresh : ℕ → Option Bool
  pub proof_expires_at : ℕ → Option ℕ
  pub get_human_nullifier : ℕ → Option ℕ
  pub get_agent_count_for_human : ℕ → Option ℕ
  pub get_proof_provider : ℕ → Option Text
  pub self_proof_provider : Option Text
  pub get_agent_credentials : ℕ → Option RawCredentials
  pub has_human_proof : ℕ → Option Bool
  pub get_agents_for_nullifier : ℕ → Option (List ℕ)

pub data NetworkName : Type 0 where
  mainnet testnet : NetworkName

pub record Network : Type 0 where
  pub registry_address : Text
  pub rpc_url : Text

unfoldable pub networks : NetworkName → Network
networks mainnet = record {
  registry_address = codes "0xaC3DF9ABf80d0F5c020C06B04Cced27763355944";
  rpc_url = codes "https://forno.celo.org";
}
networks testnet = record {
  registry_address = codes "0x043DaCac8b0771DD5b444bCC88f2f8BBDBEdd379";
  rpc_url = codes "https://forno.celo-sepolia.celo-testnet.org";
}

abbrev pub default_network : NetworkName
default_network = mainnet

abbrev pub default_max_age_ms : ℕ
default_max_age_ms = 5 * 60 * 1000

abbrev pub default_cache_ttl_ms : ℕ
default_cache_ttl_ms = 60000

abbrev pub reauth_base_url : Text
reauth_base_url = codes "https://app.ai.self.xyz"
