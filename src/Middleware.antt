-- ===== src/Middleware.antt =====
-- typescript-sdk/src/SelfAgentVerifier.ts: `auth()`, the Express middleware in front of `verify`,
-- and the names of the headers from typescript-sdk/src/constants.ts.
pub mod Request
pub mod Admits
mod Examples
use self_agent_id.Base.{
  ℕ, Bool, true, false, Option, none, some, List, [], ◌∷◌, Text, codes, get, ◌==◌, get_or_else,
  if◌then◌else◌,
}
use self_agent_id.Verifier.{Verifier, VerificationResult, Failure, AgentCredentials}
use self_agent_id.Verifier.Auth.{World, VerifyParams, truthy}
use self_agent_id.Verifier.Verify.{verify}

abbrev pub signature_header : Text
signature_header = codes "x-self-agent-signature"

abbrev pub timestamp_header : Text
timestamp_header = codes "x-self-agent-timestamp"

abbrev pub keytype_header : Text
keytype_header = codes "x-self-agent-keytype"

abbrev pub key_header : Text
key_header = codes "x-self-agent-key"

-- A value of type `unknown`: a string, a `Buffer`, another value that counts as false, or any other
-- object of the type `J`.
pub data Value (J : Type 0) : Type 0 where
  string : Text → Value J
  buffer : List ℕ → Value J
  falsy : Value J
  object : J → Value J

-- What `JSON.stringify` does: a text, `undefined`, or a thrown error.
pub data Stringified : Type 0 where
  json : Text → Stringified
  undefined fails : Stringified

-- What the code calls of the platform.
pub record Platform (J : Type 0) : Type 0 where
  pub to_utf8_string : List ℕ → Text
  pub stringify : J → Stringified
  pub stringify_buffer : List ℕ → Stringified

pub record MiddlewareReq (J : Type 0) : Type 0 where
  pub headers : Option (List (Text × Value J))
  pub method : Value J
  pub original_url : Value J
  pub url : Value J
  pub raw_body : Value J
  pub body : Value J

-- `req.agent`
pub record Agent : Type 0 where
  pub address : Text
  pub agent_key : Text
  pub agent_id : ℕ
  pub agent_count : ℕ
  pub nullifier : ℕ
  pub credentials : Option AgentCredentials

pub data ErrorText : Type 0 where
  missing_headers : ErrorText
  refusal : Option Failure → ErrorText

pub record Response : Type 0 where
  pub status : ℕ
  pub error : ErrorText
  pub retry_after_ms : Option ℕ

-- What becomes of a request: a response, `next()` with the agent set, or a rejected promise.
pub data Outcome : Type 0 where
  responded : Response → Outcome
  passed : Agent → Outcome
  rejected : Outcome

module _ {J : Type 0} where
  -- `typeof value === "string" ? value : undefined`
  abbrev pub as_string : Value J → Option Text
  as_string (string s) = some s
  as_string _ = none

  unfoldable pub header : Text → MiddlewareReq J → Option Text
  header name req = elim req.headers [
    | none ↦ none
    | some headers ↦ elim (get name headers) [ none ↦ none | some value ↦ as_string value ]
  ]

  unfoldable pub request_url : MiddlewareReq J → Text
  request_url req =
      get_or_else (as_string req.original_url) (get_or_else (as_string req.url) (codes "/"))

  abbrev pub parsed_body : Platform J → Value J → Stringified
  parsed_body platform (string s) = json s
  parsed_body platform falsy = undefined
  parsed_body platform (buffer bytes) = platform.stringify_buffer bytes
  parsed_body platform (object value) = platform.stringify value

  unfoldable pub request_body : Platform J → MiddlewareReq J → Stringified
  request_body platform req = elim req.raw_body [
    | string s ↦ json s
    | buffer bytes ↦ json (platform.to_utf8_string bytes)
    | _ ↦ parsed_body platform req.body
  ]

  -- The parameters of the call of `verify`.
  unfoldable pub params_of : Text → Text → Option Text → MiddlewareReq J → VerifyParams
  unfolding header request_url
  params_of signature timestamp body req = record {
    signature = signature;
    timestamp = timestamp;
    method = get_or_else (as_string req.method) (codes "GET");
    url = request_url req;
    body = body;
    keytype = header keytype_header req;
    agent_key = header key_header req;
  }

-- `retryAfterMs` where it counts as true
abbrev pub truthy_number : Option ℕ → Option ℕ
truthy_number none = none
truthy_number (some n) = if n == 0 then none else some n

abbrev pub refusal_status : Option ℕ → ℕ
refusal_status none = 401
refusal_status (some ms) = 429

unfoldable pub respond : VerificationResult → Outcome
respond result =
    if result.valid
    then passed (record {
      address = result.agent_address;
      agent_key = result.agent_key;
      agent_id = result.agent_id;
      agent_count = result.agent_count;
      nullifier = result.nullifier;
      credentials = result.credentials;
    })
    else responded (record {
      status = refusal_status (truthy_number result.retry_after_ms);
      error = refusal result.error;
      retry_after_ms = truthy_number result.retry_after_ms;
    })

abbrev pub respond_to : Option VerificationResult → Outcome
unfolding respond
respond_to none = rejected
respond_to (some result) = respond result

-- The call of `verify` and what follows it.
unfoldable pub verify_and_respond : World → VerifyParams → Verifier → Outcome × Verifier
unfolding respond_to
verify_and_respond w params v = (respond_to (verify w params v).0, (verify w params v).1)

module _ {J : Type 0} (w : World) (platform : Platform J) where
  unfoldable pub with_body :
      Text → Text → Stringified → MiddlewareReq J → Verifier → Outcome × Verifier
  unfolding verify_and_respond params_of
  with_body signature timestamp fails req v = (rejected, v)
  with_body signature timestamp undefined req v =
      verify_and_respond w (params_of signature timestamp none req) v
  with_body signature timestamp (json body) req v =
      verify_and_respond w (params_of signature timestamp (some body) req) v

  unfoldable pub auth : MiddlewareReq J → Verifier → Outcome × Verifier
  unfolding header with_body request_body
  auth req v = elim (truthy (header signature_header req)) [
    | none ↦
        (responded (record { status = 401; error = missing_headers; retry_after_ms = none }), v)
    | some signature ↦ elim (truthy (header timestamp_header req)) [
      | none ↦
          (responded (record { status = 401; error = missing_headers; retry_after_ms = none }), v)
      | some timestamp ↦ with_body signature timestamp (request_body platform req) req v
    ]
  ]
