-- ===== src/AgentSdk/Examples.antt =====
-- Tests of the agents, and their theorems at concrete requests.
use self_agent_id.Base.{
  starts_with, inl, ◌≡◌, refl, true, none, some, [], ◌∷◌, codes, arith, eq_text, print_nat,
  get_or_else, Option,
}
use mathlib.Core.Path.{subst}
use mathlib.Core.Option.{some-injective}
use self_agent_id.Base.Int.{pos, abs_diff}
use self_agent_id.Signing.{Ethers, compute_signing_message}
use self_agent_id.Signing.Samples.{
  sample_ethers, sample_parser, sample_parser_rooted, verify_sample,
}
use self_agent_id.Registry.{Registry, networks}
use self_agent_id.Verifier.Auth.{World, signed, authenticate}
use self_agent_id.Verifier.Samples.{program, world_at, sample_registry, at}
use self_agent_id.AgentSdk.{
  Wallet, SelfAgent, SelfAgentConfig, new_self_agent, sign_request, received, Ed25519Agent,
  ed25519_agent, ed25519_sign_request, bytes_to_hex, derive_key_address, get_info, registered_info,
  AgentInfo, days_between, unregistered,
}
use self_agent_id.AgentSdk.Signs.{IsSigner, authenticate-sign_request, secp256k1_headers}
use self_agent_id.AgentSdk.Ed25519.{
  IsEd25519Library, authenticate-ed25519_sign_request, ed25519_headers,
}

abbrev wallet : Wallet
wallet = record { address = codes "0xSIG"; sign_message = λ bytes. some (codes "0xSIG") }

abbrev config : SelfAgentConfig
config = record {
  private_key = none;
  signer = some wallet;
  network = none;
  registry_address = none;
  rpc_url = none;
}

abbrev agent : SelfAgent
unfolding networks
agent = record {
  wallet = wallet;
  registry_address = codes "0xaC3DF9ABf80d0F5c020C06B04Cced27763355944";
  rpc_url = codes "https://forno.celo.org";
  agent_key = codes "0x000xSIG";
}

wallet-IsSigner : IsSigner sample_ethers wallet
unfolding verify_sample eq_text
wallet-IsSigner bytes signature e =
    subst (λ s. verify_sample bytes s ≡ some (codes "0xSIG"))
      (some-injective (codes "0xSIG") signature e) refl

authenticate-sign_request_example :
    authenticate (world_at 1500) 300000 (
      received
        (secp256k1_headers (codes "0xSIG") (codes "0xSIG") (print_nat 1000))
        (codes "GET")
        (codes "/a")
        none)
    ≡ signed (record {
      address = codes "0xSIG";
      key = codes "0x000xSIG";
      message =
          compute_signing_message sample_ethers sample_parser
            (print_nat 1000)
            (codes "GET")
            (codes "/a")
            none;
      ts = pos 1000;
    })
unfolding program sign_request new_self_agent
authenticate-sign_request_example =
    authenticate-sign_request (world_at 1500) (λ key. none) config agent 1000 300000 (codes "GET")
      (codes "/a") none (secp256k1_headers (codes "0xSIG") (codes "0xSIG") (print_nat 1000))
      sample_parser_rooted (inl refl) wallet-IsSigner refl refl (omega arith)

-- One key, whose hex text is decoded to it.
abbrev ed25519_ethers : Ethers
ed25519_ethers = record sample_ethers { get_bytes = λ text. some (7 ∷ []) }

abbrev ed25519_world : World
ed25519_world = record {
  ethers = ed25519_ethers;
  parser = sample_parser;
  registry = sample_registry;
  clock = at 1500;
}

abbrev ed25519_one : Ed25519Agent
unfolding derive_key_address bytes_to_hex
ed25519_one = record {
  private_key_bytes = 9 ∷ [];
  public_key_bytes = 7 ∷ [];
  agent_key = codes "0x07";
  address = get_or_else (derive_key_address ed25519_ethers (7 ∷ [])) [];
}

library : IsEd25519Library ed25519_ethers (λ key. 7 ∷ []) (λ bytes key. 7 ∷ [])
library = record {
  key_bytes = λ key. refl;
  signature_bytes = λ bytes key. refl;
  verifies = λ bytes key. refl;
}

authenticate-ed25519_sign_request_example :
    authenticate ed25519_world 300000 (
      received
        (ed25519_headers (codes "0x07") (codes "0x07") (print_nat 1000))
        (codes "GET")
        (codes "/a")
        none)
    ≡ signed (record {
      address = ed25519_one.address;
      key = codes "0x07";
      message =
          compute_signing_message ed25519_ethers sample_parser
            (print_nat 1000)
            (codes "GET")
            (codes "/a")
            none;
      ts = pos 1000;
    })
unfolding ed25519_agent ed25519_sign_request bytes_to_hex derive_key_address abs_diff starts_with
authenticate-ed25519_sign_request_example =
    authenticate-ed25519_sign_request ed25519_world (λ key. 7 ∷ []) (λ bytes key. 7 ∷ []) (9 ∷ [])
      ed25519_one 1000 300000 (codes "GET") (codes "/a") none
      (ed25519_headers (codes "0x07") (codes "0x07") (print_nat 1000)) sample_parser_rooted
      (inl refl) library refl refl (omega arith)

-- A proof that expired a second ago.
abbrev expired_registry : Registry
expired_registry = record sample_registry { proof_expires_at = λ id. some 100000 }

abbrev info_of : Option AgentInfo → AgentInfo
info_of o = get_or_else o (unregistered [] [])

says_soon : (info_of (get_info expired_registry 100001000 agent)).is_expiring_soon ≡ true
unfolding get_info registered_info days_between
says_soon = refl
