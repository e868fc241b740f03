-- ===== src/AgentApi/Steps.antt =====
-- What one request of app/app/api/agent/register does to the session that it answers with.
use self_agent_id.Base.{
  ◌≡◌, ◌⊎◌, inl, inr, refl, sym, true, false, Bool, Option, none, some, Text, codes, arith, set,
  Option-cases, Bool-cases, ◌||◌,
}
use mathlib.Core.Path.{subst}
use self_agent_id.Base.Int.{pos}
use self_agent_id.A2aTypes.{Json, string, number}
use self_agent_id.SessionToken.{SessionData, value_of, entries_of}
use self_agent_id.ApiResponses.{Called, returned, threw, ApiNetwork, get_network_config}
use self_agent_id.AgentApi.{Chain, ChainStatus, respond}
use self_agent_id.AgentApi.Register.{
  is_stage, set_stage, truthy_value, check_session_agent, complete_registration, poll_chain,
  register_status, take_callback, register_callback,
}
use self_agent_id.AgentApi.Writes.{
  Keeps, Keeps-refl, Keeps-failed, Keeps-proof, Keeps-completed, stage_of_failed, stage_of_proof,
  stage_of_completed,
}

-- The chain says that the session's agent is verified.
pub record IsConfirmed (chain : Chain) (session : SessionData) : Type 0 where
  pub network : ApiNetwork
  pub agent_address : Json
  pub agent : ChainStatus
  pub on_network : get_network_config (value_of (codes "network") session) ≡ returned network
  pub has_address : value_of (codes "agentAddress") session ≡ some agent_address
  pub checked : check_session_agent chain session agent_address network ≡ returned agent
  pub verified : agent.is_verified ≡ true

-- What a callback may write as the stage.
abbrev pub IsCallbackStage : Option Json → Type 0
IsCallbackStage stage =
    (stage ≡ some (string (codes "failed"))) ⊎ (stage ≡ some (string (codes "proof-received")))

-- What a callback does to the session that it answers with.
abbrev pub CallbackResult : SessionData → SessionData → Type 0
CallbackResult session sent =
    Keeps session sent
    × ((sent ≡ session)
        ⊎ ((is_stage (codes "completed") session ≡ false)
            × IsCallbackStage (value_of (codes "stage") sent)))

take_callback_lem :
    (session sent extra data_sent : SessionData) (payload : Json)
    → is_stage (codes "completed") session ≡ false
    → take_callback session payload data_sent ≡ respond sent extra
    → CallbackResult session sent
unfolding take_callback
take_callback_lem session sent extra data_sent payload open_stage h =
    elim (Option-cases (truthy_value (value_of (codes "error") data_sent))) [
      | inr (error, e) ↦
          let s : set_stage (codes "failed") session ≡ sent = ground arith in
          subst (CallbackResult session) s
            (Keeps-failed session, inr (open_stage, inl (stage_of_failed session)))
      | inl e ↦
          let s : set (codes "proof") (some payload) (set_stage (codes "proof-received") session)
              ≡ sent =
            ground arith in
          subst (CallbackResult session) s
            (Keeps-proof session payload, inr (open_stage, inr (stage_of_proof session payload)))
    ]

pub register_callback_lem :
    (session sent extra : SessionData) (body : Option Json)
    → register_callback body session ≡ respond sent extra
    → CallbackResult session sent
unfolding register_callback
register_callback_lem session sent extra body h =
    elim (Bool-cases (is_stage (codes "completed") session)) [
      | inl e ↦
          let s : session ≡ sent = ground arith in
          subst (CallbackResult session) s (Keeps-refl session, inl refl)
      | inr e ↦ elim (Option-cases body) [
        | inl none_sent ↦ absurd (ground arith)
        | inr (payload, some_sent) ↦ elim (Option-cases (entries_of payload)) [
          | inl no_entries ↦ absurd (ground arith)
          | inr (entries, has_entries) ↦
              take_callback_lem session sent extra entries payload e (ground arith)
        ]
      ]
    ]

-- What a poll does to the session that it answers with.
abbrev pub PollResult : Chain → SessionData → SessionData → Type 0
PollResult chain session sent =
    Keeps session sent
    × ((sent ≡ session)
        ⊎ ((value_of (codes "stage") sent ≡ some (string (codes "completed")))
            × IsConfirmed chain session))

Called-cases :
    {A : Type 0} (c : Called A) → ((a : A) × (c ≡ returned a)) ⊎ ((m : Text) × (c ≡ threw m))
Called-cases (returned a) = inl (a, refl)
Called-cases (threw m) = inr (m, refl)

pub truthy_value-some :
    (value : Option Json) (v : Json) → truthy_value value ≡ some v → value ≡ some v
truthy_value-some none v h = cc
truthy_value-some (some value) v h = ground arith

complete_registration_lem :
    (chain : Chain) (session sent extra : SessionData) (agent_address : Json) (network : ApiNetwork)
    (agent : ChainStatus)
    → get_network_config (value_of (codes "network") session) ≡ returned network
    → value_of (codes "agentAddress") session ≡ some agent_address
    → check_session_agent chain session agent_address network ≡ returned agent
    → complete_registration chain session agent_address network agent ≡ respond sent extra
    → PollResult chain session sent
unfolding complete_registration
complete_registration_lem chain session sent extra agent_address network agent on at checked h =
    elim (Bool-cases agent.is_verified) [
      | inl verified ↦
          let s : set (codes "agentId") (some (number (pos agent.agent_id)))
                (set_stage (codes "completed") session)
              ≡ sent =
            ground arith in
          let confirmed : IsConfirmed chain session = record {
            network = network;
            agent_address = agent_address;
            agent = agent;
            on_network = on;
            has_address = at;
            checked = checked;
            verified = verified;
          } in
          subst (PollResult chain session) s
            (Keeps-completed session _, inr (stage_of_completed session _, confirmed))
      | inr other ↦
          let s : session ≡ sent = ground arith in
          subst (PollResult chain session) s (Keeps-refl session, inl refl)
    ]

poll_chain_lem :
    (chain : Chain) (session sent extra : SessionData)
    → poll_chain chain session ≡ respond sent extra
    → PollResult chain session sent
unfolding poll_chain
poll_chain_lem chain session sent extra h =
    elim (Called-cases (get_network_config (value_of (codes "network") session))) [
      | inr (m, e) ↦ absurd (ground arith)
      | inl (network, on) ↦
          elim (Option-cases (truthy_value (value_of (codes "agentAddress") session))) [
            | inl e ↦ absurd (ground arith)
            | inr (agent_address, at) ↦
                elim (Called-cases (check_session_agent chain session agent_address network)) [
                  | inr (m, e) ↦ absurd (ground arith)
                  | inl (agent, checked) ↦
                      complete_registration_lem chain session sent extra agent_address network agent
                        on (truthy_value-some _ agent_address at) checked (ground arith)
                ]
          ]
    ]

-- A session that is completed or failed.
abbrev pub is_settled : SessionData → Bool
is_settled session = is_stage (codes "completed") session || is_stage (codes "failed") session

pub register_status_lem :
    (chain : Chain) (session sent extra : SessionData)
    → register_status chain session ≡ respond sent extra
    → PollResult chain session sent × ((sent ≡ session) ⊎ (is_settled session ≡ false))
unfolding register_status
register_status_lem chain session sent extra h = elim (Bool-cases (is_settled session)) [
  | inl e ↦
      let s : session ≡ sent = ground arith in
      (subst (PollResult chain session) s (Keeps-refl session, inl refl), inl (sym s))
  | inr e ↦ (poll_chain_lem chain session sent extra (ground arith), inr e)
]
