-- ===== src/AaProxyAuth/Examples.antt =====
-- Tests of the AA proxy's tokens and origins, and its theorems at concrete requests.
use self_agent_id.Base.{
  ◌+◌, max, ◌≡◌, ◌↔◌, ◌⊎◌, refl, some, true, false, [], ◌++◌, codes, Text, arith, eq_text, split_on,
  trim, trim_start, is_white, Option, if◌then◌else◌,
}
use self_agent_id.Base.Int.{pos}
use self_agent_id.A2aServer.{find_field}
use self_agent_id.AaProxyAuth.{
  ProxyConfig, NextRequest, OriginParts, TokenPayload, valid, allowed, get_client_ip, get_ua_hash,
  issue_aa_proxy_token, verify_aa_proxy_token, parse_token, payload_of, sign, check_payload,
  validate_allowed_origin, candidate_of, config_of_env, origins_of,
}
use self_agent_id.AaProxyAuth.Samples.{sample_node, sample_node-IsFaithful}
use self_agent_id.AaProxyAuth.Token.{IsAuthorized, verify-IsAuthorized}
use self_agent_id.AaProxyAuth.Issue.{encoded, issue_verify}
use self_agent_id.AaProxyAuth.Origin.{IsAllowedOrigin, validate-allowed_iff}

program : Unit {0}
unfolding get_client_ip get_ua_hash issue_aa_proxy_token verify_aa_proxy_token parse_token
    payload_of sign check_payload validate_allowed_origin config_of_env origins_of find_field
    eq_text split_on trim trim_start is_white
program = tt

abbrev config : ProxyConfig
config = record {
  token_secret = codes "secret";
  token_ttl_ms = 90000;
  enforce_origin = true;
  allowed_origins = [];
}

abbrev headers : Text → Option Text
unfolding eq_text
headers name =
    if eq_text name (codes "x-forwarded-for")
    then some (codes " 10.0.0.1 , 10.0.0.2")
    else some (codes "h")

abbrev request : NextRequest
request = record { header = headers }

first_address : get_client_ip request ≡ codes "10.0.0.1"
unfolding program
first_address = refl

abbrev token_payload : TokenPayload
token_payload = record {
  exp = pos 91000;
  chain_id = codes "1";
  ip = codes "10.0.0.1";
  ua_hash = codes "h";
}

abbrev token : Text
unfolding program
token =
    encoded sample_node token_payload
    ++ (codes "." ++ sign sample_node config.token_secret (encoded sample_node token_payload))

issue_verify_example :
    (91000 ≡ 1000 + max 10000 config.token_ttl_ms)
    × (verify_aa_proxy_token sample_node config 90999 request token (codes "1") ≡ valid)
unfolding program
issue_verify_example =
    issue_verify sample_node sample_node-IsFaithful config 1000 90999 91000 request request
      (codes "1") token refl refl refl (omega arith)

verify-IsAuthorized_example : IsAuthorized sample_node config 90999 request token (codes "1")
unfolding program
verify-IsAuthorized_example =
    verify-IsAuthorized sample_node config 90999 request token (codes "1") refl

validate-allowed_iff_example : (validate_allowed_origin sample_node config request ≡ allowed) ↔ (
    (config.enforce_origin ≡ false)
    ⊎ ((candidate : Text) × (parsed : OriginParts) × (candidate_of request ≡ some candidate)
        × (sample_node.parse_url candidate ≡ some parsed)
        × IsAllowedOrigin config request parsed))
validate-allowed_iff_example = validate-allowed_iff sample_node config request
