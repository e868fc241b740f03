-- ===== src/RegistrationFlow/Refused.antt =====
-- The client's polls, typescript-sdk/src/registration-flow.ts, against the API's status routes,
-- app/lib/agent-api-helpers.ts: the client puts the token in the address, the API wants it in a header.
use self_agent_id.Base.{
  suc, ℕ, ◌+◌, ◌<◌, ◌≡◌, leb, ◌&&◌, get_or_else, lt→ltb, arith, refl, ap, ◌∙◌, true, false, Option,
  none, some, List, Text, codes, ltb, includes, to_lower, starts_with, eq_text,
}
use self_agent_id.A2aTypes.{Json}
use self_agent_id.A2aServer.{find_field}
use self_agent_id.SessionToken.{SessionData}
use self_agent_id.ApiResponses.{Response, json_response, error_response, text_of_json-string}
use self_agent_id.AgentApi.{
  Server, Request, Outcome, extract_bearer_token, read_session_token, get_with_session,
}
use self_agent_id.RegistrationFlow.{
  Host, Fetched, answered, fetch_failed, default_timeout_ms, default_poll_interval_ms,
  error_message, api_fetch,
}
use self_agent_id.RegistrationFlow.Sessions.{
  Flow, ended, failed, judge_error, read_status, round, wait_for_completion, ends, status_url,
}
use self_agent_id.RegistrationFlow.Polls.{round_of, poll-ends}

-- An answer of the server as `fetch` and `res.json()` give it to the client.
abbrev fetched_body : ℕ → Option Json → Fetched
fetched_body status none = fetch_failed (codes "Unexpected end of JSON input")
fetched_body status (some body) = answered (leb 200 status && ltb status 300) status body

abbrev pub fetched_response : Response → Fetched
fetched_response response = fetched_body response.status response.body

abbrev missing_token : Text
missing_token = codes "Missing session token. Provide Authorization: Bearer <sessionToken>."

get_refused :
    (server : Server) (now : ℕ) (iv : List ℕ) (req : Request) (route : SessionData → Outcome)
    → server.allow_legacy_query ≡ false
    → req.header (codes "authorization") ≡ none
    → get_with_session server true now iv req route ≡ error_response missing_token 400
unfolding get_with_session read_session_token extract_bearer_token
get_refused server now iv req route strict bare =
    rw (bare, strict, get_with_session, read_session_token, extract_bearer_token) refl

module _ {S : Type 0} {R : Type 0} (flow : Flow R) (host : Host S) (api_base : Text) where
  refused_round :
      (interval : ℕ) (token : Option Json) (s : S)
      → (host.fetch (status_url flow host api_base token) none (host.sleep interval s)).0
        ≡ fetched_response (error_response missing_token 400)
      → (round_of flow host api_base interval token s).0 ≡ ends (failed missing_token)
  unfolding round read_status api_fetch judge_error error_message error_response json_response
      find_field eq_text includes starts_with to_lower
  refused_round interval token s e = rw (e, text_of_json-string missing_token) refl

  -- The client's polls are refused by the API. Where the server does not take the token from the address,
  -- which is the default, and the request that `waitForCompletion` sends bears no authorization header,
  -- the first poll ends with a `RegistrationError` that the session token is missing, for a registration,
  -- refresh or deregistration session, whatever its token and its stage.
  pub wait_refused :
      (server : Server) (now : ℕ) (iv : List ℕ) (req : Request) (route : SessionData → Outcome)
      (fuel : ℕ) (timeout_ms interval_ms : Option ℕ) (token : Option Json) (s : S)
      → server.allow_legacy_query ≡ false
      → req.header (codes "authorization") ≡ none
      → (host.fetch
          (status_url flow host api_base token)
          none
          (host.sleep (get_or_else interval_ms default_poll_interval_ms) s)).0
        ≡ fetched_response (get_with_session server true now iv req route)
      → 0 < get_or_else timeout_ms default_timeout_ms
      → (wait_for_completion flow host api_base (suc fuel) timeout_ms interval_ms token s).0
        ≡ ended
            (failed (codes "Missing session token. Provide Authorization: Bearer <sessionToken>."))
  unfolding wait_for_completion
  wait_refused server now iv req route fuel timeout_ms interval_ms token s strict bare e h =
      let interval = get_or_else interval_ms default_poll_interval_ms in
      let deadline = host.now s + get_or_else timeout_ms default_timeout_ms in
      let refused =
        refused_round interval token s
          (e ∙ ap fetched_response (get_refused server now iv req route strict bare)) in
      ap (λ r. r.0)
        (poll-ends flow host api_base fuel interval deadline token s (failed missing_token)
          (lt→ltb _ _ (omega arith)) refused)
