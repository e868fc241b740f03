-- ===== src/Middleware/Examples.antt =====
-- The theorems on the middleware at concrete requests.
use self_agent_id.Base.{ℕ, refl, none, some, [], ◌∷◌, codes}
use self_agent_id.Verifier.Samples.{program, world_at, default_verifier, accepted}
use self_agent_id.Middleware.{
  string, falsy, Platform, MiddlewareReq, Agent, json, signature_header, timestamp_header, auth,
  header, request_url, request_body, params_of, with_body, verify_and_respond, respond, respond_to,
}
use self_agent_id.Middleware.Admits.{IsAdmitted, auth-IsAdmitted}

abbrev platform : Platform ℕ
platform = record {
  to_utf8_string = λ bytes. bytes;
  stringify = λ n. json (n ∷ []);
  stringify_buffer = λ bytes. json bytes;
}

abbrev request : MiddlewareReq ℕ
request = record {
  headers =
      some (
        (signature_header, string (codes "0xSIG"))
        ∷ (timestamp_header, string (codes "1000"))
        ∷ []);
  method = falsy;
  original_url = string (codes "/a");
  url = falsy;
  raw_body = falsy;
  body = falsy;
}

abbrev agent : Agent
agent = record {
  address = accepted.agent_address;
  agent_key = accepted.agent_key;
  agent_id = 7;
  agent_count = 1;
  nullifier = 5;
  credentials = none;
}

auth-IsAdmitted_example : IsAdmitted (world_at 1000) platform request default_verifier agent
unfolding program auth header request_url request_body params_of with_body verify_and_respond
    respond respond_to
auth-IsAdmitted_example =
    auth-IsAdmitted (world_at 1000) platform request default_verifier agent refl
