-- ===== src/AgentApi/Register.antt =====
-- app/app/api/agent/register: the routes that follow a registration, status, callback, export and qr.
use self_agent_id.Base.{
  Bool, not, Option, none, some, List, [], ◌∷◌, ◌++◌, Text, codes, set, if◌then◌else◌, is_empty,
  ltb, ◌||◌,
}
use self_agent_id.Base.Int.{pos}
use self_agent_id.A2aTypes.{Json, Items, null, boolean, number, string, array, item, end}
use self_agent_id.SessionToken.{SessionData, value_of, session_json, entries_of, truthy_json}
use self_agent_id.ApiResponses.{
  Called, returned, threw, ApiNetwork, registry_address, is_text, text_of_value, get_network_config,
  human_instructions,
}
use self_agent_id.AgentApi.{
  Chain, ChainStatus, RawCredentials, Outcome, respond, refuse, check_agent_key,
  check_agent_on_chain,
}

-- `value || undefined` on a property.
abbrev pub truthy_value : Option Json → Option Json
truthy_value none = none
truthy_value (some value) = if truthy_json value then some value else none

abbrev pub is_type : Text → SessionData → Bool
is_type type session = is_text type (value_of (codes "type") session)

abbrev pub is_stage : Text → SessionData → Bool
is_stage stage session = is_text stage (value_of (codes "stage") session)

abbrev pub set_stage : Text → SessionData → SessionData
set_stage stage session = set (codes "stage") (some (string stage)) session

abbrev text_or_undefined : Text → Option Json
text_or_undefined s = if is_empty s then none else some (string s)

abbrev booleans : List Bool → Items
booleans [] = end
booleans (b ∷ rest) = item (boolean b) (booleans rest)

credentials_json : Called RawCredentials → Json
credentials_json (threw message) = null
credentials_json (returned raw) = session_json (
    (codes "nationality", text_or_undefined raw.nationality)
    ∷ (codes "issuingState", text_or_undefined raw.issuing_state)
    ∷ (codes "olderThan", if ltb 0 raw.older_than then some (number (pos raw.older_than)) else none)
    ∷ (codes "ofac", some (array (booleans raw.ofac)))
    ∷ (codes "dateOfBirth", text_or_undefined raw.date_of_birth)
    ∷ (codes "gender", text_or_undefined raw.gender)
    ∷ (codes "expiryDate", text_or_undefined raw.expiry_date)
    ∷ [])

-- The agent's status: by the raw key of an ed25519 session, and by the address of any other.
unfoldable pub check_session_agent : Chain → SessionData → Json → ApiNetwork → Called ChainStatus
unfolding check_agent_key check_agent_on_chain value_of
check_session_agent chain session agent_address network =
    if is_text (codes "ed25519") (value_of (codes "mode") session)
    then (elim (truthy_value (value_of (codes "ed25519Pubkey") session)) [
      | some pubkey ↦ check_agent_key chain (codes "0x" ++ text_of_value (some pubkey)) network
      | none ↦ check_agent_on_chain chain agent_address network
    ])
    else check_agent_on_chain chain agent_address network

-- A session whose agent is on the chain is completed.
unfoldable pub complete_registration :
    Chain → SessionData → Json → ApiNetwork → ChainStatus → Outcome
unfolding credentials_json registry_address human_instructions value_of set
complete_registration chain session agent_address network status =
    if status.is_verified
    then respond
        (set (codes "agentId") (some (number (pos status.agent_id)))
          (set_stage (codes "completed") session))
        ((codes "agentAddress", some agent_address)
          ∷ (codes "agentId", some (number (pos status.agent_id)))
          ∷ (
            codes "credentials",
            some (
                credentials_json
                  (chain.get_agent_credentials (registry_address network) status.agent_id)),
          )
          ∷ (codes "humanInstructions", human_instructions (some (string (codes "completed"))))
          ∷ [])
    else respond session (
        (codes "agentAddress", some agent_address)
        ∷ (codes "humanInstructions", human_instructions (value_of (codes "stage") session))
        ∷ [])

abbrev pub status_failed : Text → Outcome
status_failed message = refuse (codes "Status check failed: " ++ message) 500

-- The part of the status route that asks the chain.
unfoldable pub poll_chain : Chain → SessionData → Outcome
unfolding check_session_agent complete_registration get_network_config value_of
poll_chain chain session = elim (get_network_config (value_of (codes "network") session)) [
  | threw message ↦ status_failed message
  | returned network ↦ elim (truthy_value (value_of (codes "agentAddress") session)) [
    | none ↦ refuse (codes "Session missing agentAddress") 500
    | some agent_address ↦ elim (check_session_agent chain session agent_address network) [
      | threw message ↦ status_failed message
      | returned status ↦ complete_registration chain session agent_address network status
    ]
  ]
]

-- What the answers say of the agent.
abbrev pub agent_entries : SessionData → SessionData → SessionData
agent_entries session rest =
    (codes "agentAddress", value_of (codes "agentAddress") session)
    ∷ (codes "agentId", value_of (codes "agentId") session)
    ∷ rest

unfoldable pub register_status : Chain → SessionData → Outcome
unfolding poll_chain human_instructions value_of
register_status chain session =
    if not (is_type (codes "register") session)
    then refuse (codes "Token is not for a registration session") 400
    else (if is_stage (codes "completed") session || is_stage (codes "failed") session
        then respond session (
            agent_entries session (
              (codes "humanInstructions", human_instructions (value_of (codes "stage") session))
              ∷ []))
        else poll_chain chain session)

abbrev pub invalid_callback : Outcome
invalid_callback = refuse (codes "Invalid callback payload") 400

-- The callback's data: an error first, then a proof.
unfoldable pub take_callback : SessionData → Json → SessionData → Outcome
unfolding human_instructions value_of set
take_callback session payload callback = elim (truthy_value (value_of (codes "error") callback)) [
  | some error ↦ respond (set_stage (codes "failed") session) (
      (codes "agentAddress", value_of (codes "agentAddress") session)
      ∷ (codes "error", some error)
      ∷ (codes "humanInstructions", human_instructions (some (string (codes "failed"))))
      ∷ [])
  | none ↦
      if is_empty callback
      then refuse (codes "Empty callback payload") 400
      else respond (set (codes "proof") (some payload) (set_stage (codes "proof-received") session))
          ((codes "agentAddress", value_of (codes "agentAddress") session)
            ∷ (
              codes "humanInstructions",
              human_instructions (some (string (codes "proof-received"))),
            )
            ∷ [])
]

unfoldable pub register_callback : Option Json → SessionData → Outcome
unfolding take_callback human_instructions value_of
register_callback body session =
    if not (is_type (codes "register") session)
    then refuse (codes "Token is not for a registration session") 400
    else (if is_stage (codes "completed") session
        then respond session (
            agent_entries session (
              (codes "humanInstructions", human_instructions (some (string (codes "completed"))))
              ∷ []))
        else (elim body [
          | none ↦ invalid_callback
          | some payload ↦ elim (entries_of payload) [
            | none ↦ invalid_callback
            | some callback ↦ take_callback session payload callback
          ]
        ]))
