-- ===== src/AgentApi/Export.antt =====
-- app/app/api/agent/register: the routes export, which gives the private key of an agent away, and qr.
use self_agent_id.Base.{
  ℕ, false, not, Option, none, some, List, [], ◌∷◌, ◌++◌, Text, codes, if◌then◌else◌, ◌||◌,
}
use self_agent_id.A2aTypes.{Json, string, object}
use self_agent_id.A2aServer.{find_field}
use self_agent_id.SessionToken.{SessionData, value_of}
use self_agent_id.ApiResponses.{Response, error_response, text_of_value}
use self_agent_id.AgentApi.{Server, Request, Outcome, plain, refuse, with_session, get_with_session}
use self_agent_id.AgentApi.Register.{is_type, is_stage, truthy_value}

-- The token of the request's body, where it is a text that is not empty.
unfoldable pub token_of_body : Json → Option Text
unfolding find_field
token_of_body (object fields) = elim (find_field (codes "token") fields) [
  | some (string []) ↦ none
  | some (string (c ∷ token)) ↦ some (c ∷ token)
  | _ ↦ none
]
token_of_body _ = none

unfoldable pub export_body : SessionData → Json → SessionData
unfolding value_of
export_body session private_key =
    (codes "privateKey", some private_key)
    ∷ (codes "agentAddress", value_of (codes "agentAddress") session)
    ∷ (codes "agentId", value_of (codes "agentId") session)
    ∷ (codes "network", value_of (codes "network") session)
    ∷ (codes "mode", value_of (codes "mode") session)
    ∷ []

unfoldable pub export_key : SessionData → Outcome
unfolding export_body value_of
export_key session =
    if not (is_type (codes "register") session)
    then refuse (codes "Token is not for a registration session") 400
    else (if not (is_stage (codes "completed") session)
        then refuse
            (codes "Cannot export key until registration is complete. Current stage: "
              ++ text_of_value (value_of (codes "stage") session))
            409
        else (elim (truthy_value (value_of (codes "agentPrivateKey") session)) [
          | none ↦
              refuse
                (codes
                  "No private key available. Self-custody mode does not generate an agent keypair.")
                400
          | some private_key ↦ plain (export_body session private_key)
        ]))

-- `universal_link` is the package's `getUniversalLink`.
unfoldable pub qr_code : (Json → Text) → SessionData → Outcome
unfolding value_of
qr_code universal_link session =
    if not (is_type (codes "register") session || is_type (codes "deregister") session)
    then refuse (codes "Token is not for a registration/deregistration session") 400
    else (if not (is_stage (codes "qr-ready") session)
        then refuse
            (codes "QR code not available at stage: "
              ++ text_of_value (value_of (codes "stage") session))
            409
        else (elim (truthy_value (value_of (codes "qrData") session)) [
          | none ↦ refuse (codes "No QR data in session. Re-initiate registration.") 400
          | some qr_data ↦ plain (
              (codes "deepLink", some (string (universal_link qr_data)))
              ∷ (codes "selfApp", some qr_data)
              ∷ [])
        ]))

module _ (server : Server) where
  unfoldable pub post_export : ℕ → List ℕ → Request → Response
  unfolding token_of_body export_key with_session error_response
  post_export now iv req = elim req.json [
    | none ↦ error_response (codes "Invalid JSON body") 400
    | some body ↦ elim (token_of_body body) [
      | none ↦ error_response (codes "Missing token in request body") 400
      | some token ↦ with_session server false now iv token export_key
    ]
  ]

  unfoldable pub get_qr : (Json → Text) → ℕ → List ℕ → Request → Response
  unfolding get_with_session qr_code
  get_qr universal_link now iv req =
      get_with_session server false now iv req (qr_code universal_link)
