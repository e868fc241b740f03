-- ===== src/AgentApi/Deregister.antt =====
-- app/app/api/agent/deregister: the routes that follow a deregistration, status and callback.
use self_agent_id.Base.{not, Option, none, some, [], ◌∷◌, codes, set, if◌then◌else◌, is_empty, ◌||◌}
use self_agent_id.A2aTypes.{Json, string}
use self_agent_id.SessionToken.{SessionData, value_of, entries_of}
use self_agent_id.ApiResponses.{returned, threw, get_network_config, human_instructions, lines}
use self_agent_id.AgentApi.{Chain, ChainStatus, Outcome, respond, refuse, check_agent_on_chain}
use self_agent_id.AgentApi.Register.{
  truthy_value, is_type, is_stage, set_stage, agent_entries, status_failed, invalid_callback,
}

-- A session whose agent has left the chain is completed.
unfoldable pub complete_deregistration : SessionData → Json → ChainStatus → Outcome
unfolding human_instructions value_of set
complete_deregistration session agent_address status =
    if status.is_verified
    then respond session (
        (codes "agentAddress", some agent_address)
        ∷ (codes "agentId", value_of (codes "agentId") session)
        ∷ (codes "humanInstructions", human_instructions (value_of (codes "stage") session))
        ∷ [])
    else respond (set_stage (codes "completed") session) (
        (codes "agentAddress", some agent_address)
        ∷ (codes "agentId", value_of (codes "agentId") session)
        ∷ (
          codes "humanInstructions",
          lines (
              codes "Deregistration complete."
              ∷ codes "Your agent has been removed from the on-chain registry."
              ∷ []),
        )
        ∷ [])

-- The part of the status route that asks the chain.
unfoldable pub poll_removal : Chain → SessionData → Outcome
unfolding check_agent_on_chain complete_deregistration get_network_config value_of
poll_removal chain session = elim (get_network_config (value_of (codes "network") session)) [
  | threw message ↦ status_failed message
  | returned network ↦ elim (truthy_value (value_of (codes "agentAddress") session)) [
    | none ↦ refuse (codes "Session missing agentAddress") 500
    | some agent_address ↦ elim (check_agent_on_chain chain agent_address network) [
      | threw message ↦ status_failed message
      | returned status ↦ complete_deregistration session agent_address status
    ]
  ]
]

unfoldable pub deregister_status : Chain → SessionData → Outcome
unfolding poll_removal human_instructions value_of
deregister_status chain session =
    if not (is_type (codes "deregister") session)
    then refuse (codes "Token is not for a deregistration session") 400
    else (if is_stage (codes "completed") session || is_stage (codes "failed") session
        then respond session (
            agent_entries session (
              (codes "humanInstructions", human_instructions (value_of (codes "stage") session))
              ∷ []))
        else poll_removal chain session)

-- The callback's data, which is not empty: an error first, then a proof.
unfoldable pub take_removal : SessionData → Json → SessionData → Outcome
unfolding human_instructions value_of set
take_removal session payload callback = elim (truthy_value (value_of (codes "error") callback)) [
  | some error ↦ respond (set_stage (codes "failed") session) (
      agent_entries session (
        (codes "error", some error)
        ∷ (codes "humanInstructions", human_instructions (some (string (codes "failed"))))
        ∷ []))
  | none ↦
      respond (set (codes "proof") (some payload) (set_stage (codes "proof-received") session)) (
        agent_entries session (
          (codes "humanInstructions", human_instructions (some (string (codes "proof-received"))))
          ∷ []))
]

unfoldable pub deregister_callback : Option Json → SessionData → Outcome
unfolding take_removal human_instructions value_of
deregister_callback body session =
    if not (is_type (codes "deregister") session)
    then refuse (codes "Token is not for a deregistration session") 400
    else (if is_stage (codes "completed") session
        then respond session (
            (codes "agentAddress", value_of (codes "agentAddress") session)
            ∷ (codes "agentId", value_of (codes "agentId") session)
            ∷ (codes "humanInstructions", human_instructions (some (string (codes "completed"))))
            ∷ [])
        else (elim body [
          | none ↦ invalid_callback
          | some payload ↦ elim (entries_of payload) [
            | none ↦ invalid_callback
            | some callback ↦
                if is_empty callback
                then refuse (codes "Empty callback payload") 400
                else take_removal session payload callback
          ]
        ]))
