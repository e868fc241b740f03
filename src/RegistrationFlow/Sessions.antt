-- ===== src/RegistrationFlow/Sessions.antt =====
-- typescript-sdk/src/registration-flow.ts: the loops that poll a session until it is done.
use self_agent_id.Base.{
  zero, suc, ℕ, ◌+◌, ◌*◌, true, false, Option, none, some, ◌++◌, Text, codes, ltb, includes,
  to_lower, if◌then◌else◌, get_or_else,
}
use self_agent_id.Base.Int.{ℤ, pos}
use self_agent_id.A2aTypes.{Json, null}
use self_agent_id.A2aServer.{find_field, property}
use self_agent_id.ApiResponses.{is_text, text_of_value}
use self_agent_id.AgentApi.Register.{truthy_value}
use self_agent_id.RegistrationFlow.{
  Host, Result, fetched, registration_error, other_error, api_fetch, default_timeout_ms,
  default_poll_interval_ms,
}

-- What the loops of the three kinds of session differ in. `finish` reads what a completed session
-- gives, from the time and the status.
pub record Flow (R : Type 0) : Type 0 where
  pub status_path : Text
  pub expired_message : Text
  pub failed_message : Text
  pub finish : ℕ → Json → R

pub record RegistrationResult : Type 0 where
  pub agent_id : Option Json
  pub agent_address : Option Json
  pub credentials : Option Json
  pub tx_hash : Option Json

-- `value ?? undefined`
abbrev not_null : Option Json → Option Json
not_null (some null) = none
not_null value = value

abbrev or_default : Option Json → Option Json → Option Json
or_default none default = default
or_default (some null) default = default
or_default (some value) default = some value

-- `agentAddress` is that of the first answer.
unfoldable pub registration_flow : Option Json → Flow RegistrationResult
unfolding find_field
registration_flow agent_address = record {
  status_path = codes "/api/agent/register/status?token=";
  expired_message =
      codes
        "Registration session expired. Call requestRegistration() again to start a new session.";
  failed_message = codes "Registration failed on-chain.";
  finish = λ now status. record {
    agent_id = property (codes "agentId") status;
    agent_address = or_default (property (codes "agentAddress") status) agent_address;
    credentials = not_null (property (codes "credentials") status);
    tx_hash = not_null (property (codes "txHash") status);
  };
}

-- The new expiry of the proof, none for an invalid date, and a year from now where it is not stated.
unfoldable pub refresh_flow : (Json → Option ℤ) → Flow (Option ℤ)
unfolding find_field
refresh_flow date_of = record {
  status_path = codes "/api/agent/refresh/status?token=";
  expired_message =
      codes
        "Proof refresh session expired. Call requestProofRefresh() again to start a new session.";
  failed_message = codes "Proof refresh failed on-chain.";
  finish = λ now status. elim (truthy_value (property (codes "proofExpiresAt") status)) [
    | some raw ↦ date_of raw
    | none ↦ some (pos (now + 365 * 24 * 60 * 60 * 1000))
  ];
}

unfoldable pub deregistration_flow : Flow (Unit {0})
deregistration_flow = record {
  status_path = codes "/api/agent/deregister/status?token=";
  expired_message =
      codes
        "Deregistration session expired. Call requestDeregistration() again to start a new session.";
  failed_message = codes "Deregistration failed on-chain.";
  finish = λ now status. tt;
}

-- How an answer ends a wait; `failed` is a `RegistrationError`.
pub data Waited (R : Type 0) : Type 0 where
  completed : R → Waited R
  failed expired_session thrown : Text → Waited R

-- How the loop ends; `timed_out` is the `RegistrationError` after the deadline.
pub data Polled (R : Type 0) : Type 0 where
  ended : Waited R → Polled R
  timed_out out_of_fuel : Polled R

-- What one status answer says: the wait ends, or goes on.
pub data Verdict (R : Type 0) : Type 0 where
  ends : Waited R → Verdict R
  goes_on : Verdict R

module _ {R : Type 0} (flow : Flow R) where
  unfoldable pub judge_error : Text → Waited R
  judge_error message =
      if includes (to_lower message) (codes "expired")
      then expired_session flow.expired_message
      else failed message

  -- The tests of the stage, after the token is taken.
  unfoldable pub judge_stage : ℕ → Json → Verdict R
  unfolding find_field
  judge_stage now status =
      let stage = property (codes "stage") status in
      if is_text (codes "completed") stage
      then ends (completed (flow.finish now status))
      else (if is_text (codes "failed") stage
          then ends (failed flow.failed_message)
          else (if is_text (codes "expired") stage
              then ends (expired_session flow.expired_message)
              else goes_on))

  -- What the loop makes of an answer, and the token from now on.
  unfoldable pub read_status : ℕ → Option Json → Result Json → Verdict R × Option Json
  unfolding judge_error judge_stage find_field
  read_status now token (registration_error message) = (ends (judge_error message), token)
  read_status now token (other_error message) = (ends (thrown message), token)
  read_status now token (fetched null) =
      (ends (thrown (codes "Cannot read properties of null (reading 'sessionToken')")), token)
  read_status now token (fetched status) =
      (judge_stage now status, property (codes "sessionToken") status)

  module _ {S : Type 0} (host : Host S) (api_base : Text) where
    abbrev pub status_url : Option Json → Text
    status_url token =
        api_base ++ (flow.status_path ++ host.encode_uri_component (text_of_value token))

    -- One round: the verdict, the token from now on and the state of the world.
    unfoldable pub round : ℕ → Option Json → S → Verdict R × (Option Json × S)
    unfolding read_status api_fetch
    round interval token s =
        let (answer, after) = api_fetch host (status_url token) none (host.sleep interval s) in
        let (verdict, rolled) = read_status (host.now after) token answer in
        (verdict, (rolled, after))

    -- The loop, on fuel.
    unfoldable pub poll :
        ℕ → (interval deadline : ℕ) → Option Json → S → Polled R × (Option Json × S)
    unfolding round
    poll zero interval deadline token s = (out_of_fuel, (token, s))
    poll (suc fuel) interval deadline token s = elim (ltb (host.now s) deadline) [
      | false ↦ (timed_out, (token, s))
      | true ↦
          let (verdict, next) = round interval token s in
          elim verdict [
            | ends waited ↦ (ended waited, next)
            | goes_on ↦ poll fuel interval deadline next.0 next.1
          ]
    ]

    -- `waitForCompletion` with its options.
    unfoldable pub wait_for_completion :
        ℕ → (timeout_ms interval_ms : Option ℕ) → Option Json → S → Polled R × (Option Json × S)
    unfolding poll
    wait_for_completion fuel timeout_ms interval_ms token s =
        poll fuel (get_or_else interval_ms default_poll_interval_ms)
          (host.now s + get_or_else timeout_ms default_timeout_ms) token s
