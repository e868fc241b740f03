-- ===== src/AaProxyAuth.antt =====
-- app/lib/aaProxyAuth.ts: the tokens of the AA proxy and the test of a request's origin. Hashes,
-- encodings, JSON and the URL parser are parameters; a time is whole milliseconds.
pub mod Token
pub mod Issue
pub mod Origin
pub mod Samples
mod Examples
use self_agent_id.Base.{
  leb, ℕ, ◌+◌, Bool, true, false, not, Option, none, some, List, [], ◌∷◌, ◌++◌, map, Text, codes,
  max, ltb, eq_text, any, is_empty, keep, trim, split_on, if◌then◌else◌, get_or_else, length, ◌==◌,
  ◌&&◌, ◌>>=◌,
}
use self_agent_id.Base.Int.{ℤ, pos, negsuc}
use self_agent_id.A2aTypes.{Json, Fields, object, field, no_more, number, string}
use self_agent_id.A2aServer.{property}
use self_agent_id.Verifier.Auth.{truthy}

pub record OriginParts : Type 0 where
  pub origin : Text
  pub host : Text

-- What the code calls of Node: `none` is a thrown error.
pub record Node : Type 0 where
  pub hmac_sha256 : Text → Text → List ℕ
  pub sha256_hex : Text → Text
  pub to_base64_url : List ℕ → Text
  pub from_base64_url : Text → List ℕ
  pub to_utf8 : Text → List ℕ
  pub from_utf8 : List ℕ → Text
  pub stringify : Json → Text
  pub parse : Text → Option Json
  pub parse_url : Text → Option OriginParts

-- The constants that the module reads from its environment.
pub record ProxyConfig : Type 0 where
  pub token_secret : Text
  pub token_ttl_ms : ℕ
  pub enforce_origin : Bool
  pub allowed_origins : List Text

-- `process.env.X || default`
abbrev pub env_or : Text → Option Text → Text
env_or default value = get_or_else (truthy value) default

unfoldable pub origins_of : Text → List Text
origins_of text = keep (λ v. not (is_empty v)) (map trim (split_on b',' text))

-- The configuration from the variables; the time to live is `Number` of its variable.
unfoldable pub config_of_env : (secret enforce origins : Option Text) → ℕ → ProxyConfig
unfolding origins_of
config_of_env secret enforce origins ttl = record {
  token_secret = env_or [] secret;
  token_ttl_ms = ttl;
  enforce_origin = not (eq_text (env_or (codes "true") enforce) (codes "false"));
  allowed_origins = origins_of (env_or [] origins);
}

pub record TokenPayload : Type 0 where
  pub exp : ℤ
  pub chain_id : Text
  pub ip : Text
  pub ua_hash : Text

-- The headers of a request.
pub record NextRequest : Type 0 where
  pub header : Text → Option Text

pub record ParsedToken : Type 0 where
  pub payload : TokenPayload
  pub payload_b64 : Text
  pub sig_b64 : Text

abbrev pub number_of : Option Json → Option ℤ
number_of (some (number n)) = some n
number_of _ = none

abbrev pub text_of : Option Json → Option Text
text_of (some (string s)) = some s
text_of _ = none

abbrev pub payload_json : TokenPayload → Json
payload_json payload = object (
    field (codes "exp") (number payload.exp) (
      field (codes "chainId") (string payload.chain_id) (
        field (codes "ip") (string payload.ip)
          (field (codes "uaHash") (string payload.ua_hash) no_more))))

-- The tests of the fields of the parsed payload.
unfoldable pub payload_of : Json → Option TokenPayload
payload_of json = do
  exp ← number_of (property (codes "exp") json)
  chain_id ← text_of (property (codes "chainId") json)
  ip ← text_of (property (codes "ip") json)
  ua_hash ← text_of (property (codes "uaHash") json)
  some (record { exp = exp; chain_id = chain_id; ip = ip; ua_hash = ua_hash })

-- The first two parts of a split token, where both are there and not empty.
abbrev pub two_parts : List Text → Option (Text × Text)
two_parts ((c ∷ s) ∷ (d ∷ t) ∷ more) = some (c ∷ s, d ∷ t)
two_parts _ = none

unfoldable pub get_client_ip : NextRequest → Text
get_client_ip req = elim (truthy (req.header (codes "x-forwarded-for"))) [
  | some fwd ↦ elim (split_on b',' fwd) [
    | [] ↦ codes "unknown"
    | first ∷ rest ↦ env_or (codes "unknown") (some (trim first))
  ]
  | none ↦ elim (truthy (req.header (codes "x-real-ip"))) [
    | some real_ip ↦ trim real_ip
    | none ↦ codes "unknown"
  ]
]

pub data OriginResult : Type 0 where
  allowed missing_origin origin_not_allowed missing_host cross_origin invalid_origin : OriginResult

-- `origin || referer || ""`, where `none` is the empty text.
abbrev pub candidate_of : NextRequest → Option Text
candidate_of req = elim (truthy (req.header (codes "origin"))) [
  | some origin ↦ some origin
  | none ↦ truthy (req.header (codes "referer"))
]

abbrev pub host_result : Option Text → Text → OriginResult
host_result none host = missing_host
host_result (some expected) host = if eq_text host expected then allowed else cross_origin

-- The tests of an origin that parses.
abbrev pub parsed_result : ProxyConfig → NextRequest → OriginParts → OriginResult
parsed_result config req parsed =
    if is_empty config.allowed_origins
    then host_result (truthy (req.header (codes "host"))) parsed.host
    else (if any (λ o. eq_text o parsed.origin) config.allowed_origins
        then allowed
        else origin_not_allowed)

unfoldable pub validate_allowed_origin : Node → ProxyConfig → NextRequest → OriginResult
validate_allowed_origin node config req =
    if not config.enforce_origin then allowed else elim (candidate_of req) [
      | none ↦ missing_origin
      | some candidate ↦ elim (node.parse_url candidate) [
        | none ↦ invalid_origin
        | some parsed ↦ parsed_result config req parsed
      ]
    ]

pub data Issued : Type 0 where
  issued : Text → ℕ → Issued
  no_secret : Issued

pub data TokenResult : Type 0 where
  valid secret_missing malformed bad_signature expired chain_mismatch ip_mismatch client_mismatch :
      TokenResult

-- `exp <= now`
abbrev pub is_past : ℕ → ℤ → Bool
is_past now (pos exp) = leb exp now
is_past now (negsuc exp) = true

module _ (node : Node) where
  unfoldable pub get_ua_hash : NextRequest → Text
  get_ua_hash req = node.sha256_hex (env_or (codes "unknown") (req.header (codes "user-agent")))

  unfoldable pub sign : Text → Text → Text
  sign secret payload_b64 = node.to_base64_url (node.hmac_sha256 secret payload_b64)

  unfoldable pub parse_token : Text → Option ParsedToken
  unfolding payload_of
  parse_token token = do
    (payload_b64, sig_b64) ← two_parts (split_on b'.' token)
    json ← node.parse (node.from_utf8 (node.from_base64_url payload_b64))
    payload ← payload_of json
    some (record { payload = payload; payload_b64 = payload_b64; sig_b64 = sig_b64 })

  unfoldable pub issue_aa_proxy_token : ProxyConfig → ℕ → NextRequest → Text → Issued
  unfolding get_ua_hash sign get_client_ip
  issue_aa_proxy_token config now req chain_id =
      if is_empty config.token_secret
      then no_secret
      else (let expires_at = now + max 10000 config.token_ttl_ms in
          let payload : TokenPayload = record {
            exp = pos expires_at;
            chain_id = chain_id;
            ip = get_client_ip req;
            ua_hash = get_ua_hash req;
          } in
          let payload_b64 =
            node.to_base64_url (node.to_utf8 (node.stringify (payload_json payload))) in
          issued (payload_b64 ++ (codes "." ++ sign config.token_secret payload_b64)) expires_at)

  -- The lengths are tested first, since `timingSafeEqual` throws where they differ.
  abbrev pub same_signature : Text → Text → Bool
  same_signature expected got =
      (length (node.to_utf8 expected) == length (node.to_utf8 got))
      && eq_text (node.to_utf8 expected) (node.to_utf8 got)

  -- The tests of the payload, after that of the signature.
  unfoldable pub check_payload : ℕ → NextRequest → Text → TokenPayload → TokenResult
  unfolding get_ua_hash get_client_ip
  check_payload now req chain_id payload =
      if is_past now payload.exp
      then expired
      else (if not (eq_text payload.chain_id chain_id)
          then chain_mismatch
          else (if not (eq_text payload.ip (get_client_ip req))
              then ip_mismatch
              else (if not (eq_text payload.ua_hash (get_ua_hash req))
                  then client_mismatch
                  else valid)))

  unfoldable pub verify_aa_proxy_token : ProxyConfig → ℕ → NextRequest → Text → Text → TokenResult
  unfolding parse_token sign check_payload
  verify_aa_proxy_token config now req token chain_id =
      if is_empty config.token_secret then secret_missing else elim (parse_token token) [
        | none ↦ malformed
        | some parsed ↦
            if same_signature (sign config.token_secret parsed.payload_b64) parsed.sig_b64
            then check_payload now req chain_id parsed.payload
            else bad_signature
      ]
