-- ===== src/RegistrationFlow/Requests.antt =====
-- typescript-sdk/src/registration-flow.ts: the requests that start a session, ask the API or export a
-- key.
use self_agent_id.Base.{ℕ, Option, none, ◌∷◌, ◌++◌, Text, codes, get_or_else, print_nat}
use self_agent_id.Base.Int.{pos}
use self_agent_id.A2aTypes.{Json, null, number, string, object, no_more, field}
use self_agent_id.A2aServer.{find_field, property}
use self_agent_id.RegistrationFlow.{
  Host, Result, fetched, registration_error, other_error, NetworkName, mainnet, RegistrationRequest,
  ProofRefreshRequest, DeregistrationRequest, api_fetch, base_of, network_field, add_field,
  add_text, disclosures_json, mode_text, chain_id_for_network, resolve_api_base, post,
}

module _ {S : Type 0} (host : Host S) where
  -- The first answer, and the state after it.
  unfoldable pub request_registration : RegistrationRequest → S → Result Json × S
  unfolding api_fetch resolve_api_base
  request_registration opts s =
      api_fetch host (base_of host opts.api_base ++ codes "/api/agent/register")
        (post (
          object (
            field (codes "mode") (string (mode_text opts.mode)) (
              field (codes "network") (network_field host opts.network) (
                add_field (codes "disclosures") (disclosures_json opts.disclosures) (
                  add_text (codes "humanAddress") opts.human_address (
                    add_text (codes "agentName") opts.agent_name
                      (add_text (codes "agentDescription") opts.agent_description no_more))))))))
        s

  unfoldable pub request_deregistration : DeregistrationRequest → S → Result Json × S
  unfolding api_fetch resolve_api_base
  request_deregistration opts s =
      api_fetch host (base_of host opts.api_base ++ codes "/api/agent/deregister")
        (post (
          object (
            field (codes "network") (network_field host opts.network) (
              field (codes "agentAddress") (string opts.agent_address)
                (add_field (codes "disclosures") (disclosures_json opts.disclosures) no_more)))))
        s

  unfoldable pub request_proof_refresh : ProofRefreshRequest → S → Result Json × S
  unfolding api_fetch resolve_api_base
  request_proof_refresh opts s =
      api_fetch host (base_of host opts.api_base ++ codes "/api/agent/refresh")
        (post (
          object (
            field (codes "agentId") (number (pos opts.agent_id)) (
              field (codes "network") (network_field host opts.network)
                (add_field (codes "disclosures") (disclosures_json opts.disclosures) no_more)))))
        s

  unfoldable pub get_agent_info :
      ℕ → (network : Option NetworkName) → (api_base : Option Text) → S → Result Json × S
  unfolding api_fetch resolve_api_base chain_id_for_network print_nat
  get_agent_info agent_id network api_base s =
      api_fetch host
        (base_of host api_base
          ++ (codes "/api/agent/info/"
              ++ (print_nat (chain_id_for_network (get_or_else network mainnet))
                  ++ (b'/' ∷ print_nat agent_id))))
        none s

  unfoldable pub get_agents_for_human :
      Text → (network : Option NetworkName) → (api_base : Option Text) → S → Result Json × S
  unfolding api_fetch resolve_api_base chain_id_for_network print_nat
  get_agents_for_human address network api_base s =
      api_fetch host
        (base_of host api_base
          ++ (codes "/api/agent/agents/"
              ++ (print_nat (chain_id_for_network (get_or_else network mainnet))
                  ++ (b'/' ∷ address))))
        none s

  -- `exportKey`, with the token that the waits rolled on to.
  unfoldable pub export_key : Text → Option Json → S → Result (Option Json) × S
  unfolding api_fetch find_field
  export_key api_base token s =
      let (answer, after) =
        api_fetch host (api_base ++ codes "/api/agent/register/export")
          (post (object (add_field (codes "token") token no_more))) s in
      elim answer [
        | fetched null ↦
            (other_error (codes "Cannot read properties of null (reading 'privateKey')"), after)
        | fetched body ↦ (fetched (property (codes "privateKey") body), after)
        | registration_error message ↦ (registration_error message, after)
        | other_error message ↦ (other_error message, after)
      ]
