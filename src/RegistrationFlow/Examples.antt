-- ===== src/RegistrationFlow/Examples.antt =====
-- Tests of the client of the agent API, and its theorems at concrete worlds.
use self_agent_id.Base.{
  ℕ, ◌+◌, ◌-◌, ◌≡◌, ◌≢◌, refl, some, none, Option, false, true, [], Text, codes, arith, eq_text,
  if◌then◌else◌, starts_with, includes, to_lower, ltb, get_or_else,
}
use self_agent_id.Base.Int.{pos}
use self_agent_id.A2aTypes.{Json, string, number, object, field, no_more}
use self_agent_id.A2aServer.{find_field}
use self_agent_id.SessionToken.Samples.{sample_node}
use self_agent_id.AgentApi.{
  Server, Request, refuse, get_with_session, read_session_token, extract_bearer_token,
}
use self_agent_id.RegistrationFlow.{Host, Fetched, answered, resolve_api_base, default_timeout_ms}
use self_agent_id.RegistrationFlow.Sessions.{
  status_url, Flow, registration_flow, deregistration_flow, ended, timed_out, out_of_fuel,
  completed, failed, wait_for_completion, poll, judge_error, judge_stage,
}
use self_agent_id.RegistrationFlow.Polls.{IsClock, wait_ends}
use self_agent_id.RegistrationFlow.Tokens.{Asked}
use self_agent_id.RegistrationFlow.Resume.{wait_resumes}
use self_agent_id.RegistrationFlow.Refused.{fetched_response, wait_refused}

program : Unit {0}
unfolding eq_text find_field resolve_api_base registration_flow deregistration_flow judge_error
    judge_stage wait_for_completion poll get_with_session read_session_token extract_bearer_token
    includes starts_with to_lower
program = tt

slashes : resolve_api_base none (some (codes "http://h//")) ≡ codes "http://h"
unfolding program
slashes = refl

default_base : resolve_api_base (some []) none ≡ codes "https://app.ai.self.xyz"
unfolding program
default_base = refl

abbrev status : Text → Text → Json
status token stage = object (
    field (codes "sessionToken") (string token)
      (field (codes "stage") (string stage) (field (codes "agentId") (number (pos 7)) no_more)))

-- A server that is done at time 30; the state is the time.
abbrev answer_at : ℕ → Fetched
answer_at t =
    if ltb t 30
    then answered true 200 (status (codes "t2") (codes "proof-received"))
    else answered true 200 (status (codes "t3") (codes "completed"))

abbrev host : Host ℕ
host = record {
  now = λ t. t;
  sleep = λ ms t. t + ms;
  fetch = λ url init t. (answer_at t, t);
  encode_uri_component = λ text. text;
  env_api_base = none;
  date_of = λ value. none;
}

host-IsClock : IsClock host
host-IsClock = record { sleeps = λ ms t. omega arith; goes_on = λ url init t. omega arith }

abbrev flow : Flow (Unit {0})
flow = deregistration_flow

abbrev token : Option Json
token = some (string (codes "t1"))

done :
    (wait_for_completion flow host (codes "h") 9 (some 40) (some 10) token 0).0
    ≡ ended (completed tt)
unfolding program
done = refl

too_early :
    wait_for_completion flow host (codes "h") 3 (some 20) (some 10) token 0
    ≡ (timed_out, (some (string (codes "t2")), 20))
unfolding program
too_early = refl

wait_ends_example :
    (wait_for_completion flow host (codes "h") 361 none none token 0).0 ≢ out_of_fuel
wait_ends_example = wait_ends flow host (codes "h") host-IsClock none none 360 token 0 (omega arith)

wait_resumes_example :
    Asked host (status_url flow host (codes "h")) 10 token 0 (some (string (codes "t2"))) 20
    × (used : ℕ) × ((more : ℕ)
        → wait_for_completion flow host
            (codes "h")
            (used + more)
            (some (host.now 20 + get_or_else (some 50) default_timeout_ms - host.now 0))
            (some 10)
            token
            0
          ≡ wait_for_completion flow host
              (codes "h")
              more
              (some 50)
              (some 10)
              (some (string (codes "t2")))
              20)
wait_resumes_example =
    wait_resumes flow host (codes "h") 3 (some 20) (some 10) (some 50) token
      (some (string (codes "t2"))) 0 20 too_early

abbrev server : Server
server = record {
  node = sample_node;
  session_secret = some (codes "s");
  allow_legacy_query = false;
  cipher_error = codes "bad";
  json_error = codes "bad";
}

abbrev request : Request
request = record { header = λ name. none; query = λ name. some (codes "t1"); json = none }

abbrev api_host : Host ℕ
api_host = record {
  now = λ t. t;
  sleep = λ ms t. t + ms;
  fetch = λ url init t.
      (fetched_response (get_with_session server true 0 [] request (λ session. refuse [] 500)), t);
  encode_uri_component = λ text. text;
  env_api_base = none;
  date_of = λ value. none;
}

wait_refused_example :
    (wait_for_completion flow api_host (codes "h") 9 none none token 0).0
    ≡ ended (failed (codes "Missing session token. Provide Authorization: Bearer <sessionToken>."))
wait_refused_example =
    wait_refused flow api_host (codes "h") server 0 [] request (λ session. refuse [] 500) 8 none
      none token 0 refl refl refl (omega arith)
