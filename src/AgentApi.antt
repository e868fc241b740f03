-- ===== src/AgentApi.antt =====
-- app/lib/agent-api-helpers.ts: the session of a request to the agent API, the answer that carries it
-- on, and the question whether an agent is on the chain. The chain, Node and the random bytes are
-- parameters.
pub mod Register
pub mod Export
pub mod Deregister
pub mod Writes
pub mod Steps
pub mod Lifecycle
mod Examples
use self_agent_id.Base.{
  ℕ, ◌-◌, Bool, true, false, not, Option, none, some, List, [], ◌∷◌, ◌++◌, Text, codes, eq_text,
  includes, to_lower, trim, is_white, is_empty, if◌then◌else◌, get_or_else, ◌&&◌, leb, suc, ◌+◌,
  print_nat,
}
use self_agent_id.Base.Int.{ℤ, pos, negsuc}
use self_agent_id.A2aTypes.{
  failed, Json, Items, null, boolean, number, string, array, object, end, item,
}
use self_agent_id.SessionToken.{
  Node, SessionData, Opened, opened, too_short, not_authentic, not_json, invalid_payload,
  session_expired, value_of, spread, session_json, decrypt_session, rotate_session_token,
}
use self_agent_id.Verifier.Auth.{truthy}
use self_agent_id.ApiResponses.{
  Response, Called, returned, threw, ApiNetwork, registry_address, json_response, error_response,
}

-- The words of a text, as `split(/\s+/)` gives them for a text that is trimmed and not empty.
words_from : Text → Text → List Text
unfolding is_white
words_from word [] = word ∷ []
words_from word (c ∷ s) =
    let more = words_from [] s in
    let longer = words_from (word ++ (c ∷ [])) s in
    if is_white c then (if is_empty word then more else word ∷ more) else longer

-- `parts.join(" ")`
join_words : List Text → Text
join_words [] = []
join_words (w ∷ []) = w
join_words (w ∷ v ∷ rest) = w ++ (b' ' ∷ join_words (v ∷ rest))

unfoldable pub extract_bearer_token : Option Text → Option Text
unfolding words_from join_words to_lower trim
extract_bearer_token header = elim (truthy header) [
  | none ↦ none
  | some value ↦ elim (words_from [] (trim value)) [
    | [] ↦ none
    | scheme ∷ rest ↦
        if eq_text (to_lower scheme) (codes "bearer")
        then truthy (some (trim (join_words rest)))
        else none
  ]
]

-- A request as the routes read it; `none` is a header or parameter that is missing, and a body that
-- is not JSON.
pub record Request : Type 0 where
  pub header : Text → Option Text
  pub query : Text → Option Text
  pub json : Option Json

-- `readSessionTokenFromRequest`: a token or an error.
unfoldable pub read_session_token : Bool → Request → Called Text
unfolding extract_bearer_token
read_session_token allow_legacy req =
    elim (extract_bearer_token (req.header (codes "authorization"))) [
      | some token ↦ returned token
      | none ↦
          if allow_legacy
          then (elim (truthy (req.query (codes "token"))) [
            | some token ↦ returned token
            | none ↦ threw (
                codes "Missing session token. Provide Authorization: Bearer <sessionToken> "
                ++ codes "or ?token=<sessionToken>.")
          ])
          else threw (codes "Missing session token. Provide Authorization: Bearer <sessionToken>.")
    ]

-- The credentials that the registry returns.
pub record RawCredentials : Type 0 where
  pub nationality : Text
  pub issuing_state : Text
  pub older_than : ℕ
  pub ofac : List Bool
  pub date_of_birth : Text
  pub gender : Text
  pub expiry_date : Text

-- The registry's calls, by the registry's address, and `ethers.zeroPadValue(value, 32)`.
pub record Chain : Type 0 where
  pub zero_pad : Json → Called Text
  pub is_verified_agent : Text → Text → Called Bool
  pub get_agent_id : Text → Text → Called ℕ
  pub get_agent_credentials : Text → ℕ → Called RawCredentials

infixl 5 ◌>>=◌
abbrev pub ◌>>=◌ {ℓ κ} : {A : Type ℓ} {B : Type κ} → Called A → (A → Called B) → Called B
returned a >>= f = f a
threw message >>= f = threw message

pub record ChainStatus : Type 0 where
  pub is_verified : Bool
  pub agent_id : ℕ

abbrev id_if_verified : Chain → Text → Text → Bool → Called ChainStatus
id_if_verified chain registry agent_key true = do
  agent_id ← chain.get_agent_id registry agent_key
  returned (record { is_verified = true; agent_id = agent_id })
id_if_verified chain registry agent_key false =
    returned (record { is_verified = false; agent_id = 0 })

-- `checkAgentOnChain` for an agent key of 32 bytes.
unfoldable pub check_agent_key : Chain → Text → ApiNetwork → Called ChainStatus
unfolding registry_address
check_agent_key chain agent_key network = do
  is_verified ← chain.is_verified_agent (registry_address network) agent_key
  id_if_verified chain (registry_address network) agent_key is_verified

-- `checkAgentOnChain` for an address.
unfoldable pub check_agent_on_chain : Chain → Json → ApiNetwork → Called ChainStatus
unfolding check_agent_key
check_agent_on_chain chain agent_address network = do
  agent_key ← chain.zero_pad agent_address
  check_agent_key chain agent_key network

-- What the server is: Node, the secret and the setting of its environment, and the messages of the
-- errors that Node's cipher and JSON throw.
pub record Server : Type 0 where
  pub node : Node
  pub session_secret : Option Text
  pub allow_legacy_query : Bool
  pub cipher_error : Text
  pub json_error : Text

pub record SessionResponse : Type 0 where
  pub session : SessionData
  pub secret : Text

-- What a route does with a session: it answers with the session, changed perhaps, and some more
-- properties, with an object of its own, or with an error.
pub data Outcome : Type 0 where
  respond : SessionData → SessionData → Outcome
  plain : SessionData → Outcome
  refuse : Text → ℕ → Outcome

module _ (server : Server) where
  opened_session : Text → Opened → Called SessionResponse
  opened_session secret (opened session) = returned (record { session = session; secret = secret })
  opened_session secret too_short = threw (codes "Invalid token: too short")
  opened_session secret not_authentic = threw server.cipher_error
  opened_session secret not_json = threw server.json_error
  opened_session secret invalid_payload = threw (codes "Invalid token payload")
  opened_session secret session_expired = threw (codes "Session expired")

  unfoldable pub decrypt_and_validate_session : ℕ → Text → Called SessionResponse
  unfolding opened_session decrypt_session
  decrypt_and_validate_session now token = elim (truthy server.session_secret) [
    | none ↦ threw (codes "SESSION_SECRET environment variable is not set")
    | some secret ↦ opened_session secret (decrypt_session server.node now token secret)
  ]

  -- `Math.max(0, new Date(expiresAt).getTime() - Date.now())`, null in JSON for an invalid date.
  abbrev time_remaining : ℕ → Option ℤ → Json
  time_remaining now none = null
  time_remaining now (some (pos t)) = number (pos (t - now))
  time_remaining now (some (negsuc t)) = number (pos 0)

  date_of_value : Option Json → Option ℤ
  date_of_value none = none
  date_of_value (some value) = server.node.date_of value

  unfoldable pub session_response : ℕ → List ℕ → SessionData → Text → SessionData → Response
  unfolding json_response date_of_value rotate_session_token value_of spread
  session_response now iv session secret extra =
      json_response
        (spread
          ((
            codes "sessionToken",
            some (string (rotate_session_token server.node iv session [] secret)),
          )
            ∷ (codes "stage", value_of (codes "stage") session)
            ∷ (codes "expiresAt", value_of (codes "expiresAt") session)
            ∷ (
              codes "timeRemainingMs",
              some (time_remaining now (date_of_value (value_of (codes "expiresAt") session))),
            )
            ∷ [])
          extra)
        200

  unfoldable pub answer : ℕ → List ℕ → Text → Outcome → Response
  unfolding session_response json_response error_response
  answer now iv secret (respond session extra) = session_response now iv session secret extra
  answer now iv secret (plain body) = json_response body 200
  answer now iv secret (refuse message status) = error_response message status

  -- A session token to an answer: the session that it stands for, and what a route does with it.
  -- `with_detail` is set where the route says why the token is invalid.
  unfoldable pub with_session : Bool → ℕ → List ℕ → Text → (SessionData → Outcome) → Response
  unfolding decrypt_and_validate_session answer error_response includes
  with_session with_detail now iv token route = elim (decrypt_and_validate_session now token) [
    | returned found ↦ answer now iv found.secret (route found.session)
    | threw message ↦
        if includes message (codes "expired")
        then error_response (codes "Session expired") 410
        else error_response
            (if with_detail
              then codes "Invalid session token: " ++ message
              else codes "Invalid session token")
            401
  ]

  -- `GET` of a route that reads the token from the request's header.
  unfoldable pub get_with_session : Bool → ℕ → List ℕ → Request → (SessionData → Outcome) → Response
  unfolding read_session_token with_session error_response
  get_with_session with_detail now iv req route =
      elim (read_session_token server.allow_legacy_query req) [
        | returned token ↦ with_session with_detail now iv token route
        | threw message ↦ error_response message 400
      ]

  -- `POST` of a callback, whose token is a parameter of the address.
  unfoldable pub post_callback :
      ℕ → List ℕ → Request → (Option Json → SessionData → Outcome) → Response
  unfolding with_session error_response
  post_callback now iv req route = elim (truthy (req.query (codes "token"))) [
    | none ↦ error_response (codes "Missing token query parameter") 400
    | some token ↦ with_session true now iv token (route req.json)
  ]
