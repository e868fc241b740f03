-- ===== src/VerifyAgent/Examples.antt =====
-- Tests of `verifyAgent`, and its theorems at concrete agents.
use self_agent_id.Base.{
  ◌≡◌, ◌↔◌, refl, true, none, some, codes, Text, arith, eq_text, to_lower, print_nat,
}
use self_agent_id.Registry.{Registry, networks}
use self_agent_id.Verifier.Samples.{sample_registry}
use self_agent_id.VerifyAgent.{
  Options, returned, verified, proof_expired, verify_agent, look_up, check_expiry, is_agent_key,
  build_reauth_url, resolve_rpc_url, network_rpc_url, is_proof_expiring_soon,
}
use self_agent_id.VerifyAgent.Expiry.{
  HoldsProof, meant, verify_agent-verified_iff, verify_agent_lasts,
}

abbrev key : Text
key = codes "0x000000000000000000000000f39fd6e51aad88f6f4ce6ab8827279cfffb92266"

abbrev options : Options
options = record {
  chain_id = 42220;
  registry_address = codes "0xAC3DF9ABf80d0F5c020C06B04Cced27763355944";
  reauth_base_url = none;
}

-- A node that serves one registry, with a proof that expires a million seconds after the epoch.
abbrev contract : Text → Text → Registry
contract rpc_url address = record sample_registry { proof_expires_at = λ id. some 1000000 }

program : Unit {0}
unfolding verify_agent look_up check_expiry is_agent_key build_reauth_url resolve_rpc_url
    network_rpc_url is_proof_expiring_soon networks eq_text to_lower print_nat
program = tt

finds_network : resolve_rpc_url none options.registry_address ≡ codes "https://forno.celo.org"
unfolding program
finds_network = refl

expired_at_once :
    verify_agent 1000000000 contract key options none
    ≡ returned (
        proof_expired 1000000000 (
          codes
            "https://app.ai.self.xyz/reauth?agentId=7&chainId=42220&registry=0xAC3DF9ABf80d0F5c020C06B04Cced27763355944"))
unfolding program
expired_at_once = refl

verify_agent-verified_iff_example :
    (verify_agent 5000 contract key options none ≡ returned (verified 7 (some 1000000000))) ↔ (
      (is_agent_key key ≡ true)
      × HoldsProof 5000 (meant contract key options none) key 7 (some 1000000000))
verify_agent-verified_iff_example =
    verify_agent-verified_iff contract key options none 5000 7 (some 1000000000)

verify_agent_lasts_example :
    verify_agent 90000 contract key options none ≡ returned (verified 7 (some 1000000000))
unfolding program
verify_agent_lasts_example =
    verify_agent_lasts contract key options none 5000 90000 100 7 (some 1000000000) refl
      (λ t e. ground arith) (omega arith)
