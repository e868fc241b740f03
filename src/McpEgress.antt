-- ===== src/McpEgress.antt =====
-- app/lib/mcp/egress.ts: which addresses the MCP server may fetch for a caller. The URL parser and Node's
-- `isIP` are parameters.
pub mod Quads
pub mod Brackets
mod Examples
use self_agent_id.Base.{
  ℕ, Bool, true, false, not, Option, none, some, List, [], ◌∷◌, ◌++◌, map, Text, codes, eq_text,
  starts_with, split_on, trim, to_lower, drop, keep, any, is_empty, leb, ◌==◌, ◌&&◌, ◌||◌,
  if◌then◌else◌, get_or_else,
}
use self_agent_id.Base.Int.{ℤ, pos, negsuc}
use self_agent_id.Signing.{parse_int}

-- `s.endsWith(part)`
unfoldable pub ends_with : Text → Text → Bool
unfolding eq_text
ends_with [] part = is_empty part
ends_with (c ∷ s) part = eq_text (c ∷ s) part || ends_with s part

unfoldable pub parse_host_allowlist : Text → List Text
unfolding split_on trim to_lower
parse_host_allowlist raw =
    keep (λ v. not (is_empty v)) (map (λ v. to_lower (trim v)) (split_on b',' raw))

-- `a === n`, and `low <= a && a <= high`
abbrev pub is_number : ℕ → ℤ → Bool
is_number n (pos m) = m == n
is_number n (negsuc m) = false

abbrev pub is_between : ℕ → ℕ → ℤ → Bool
is_between low high (pos m) = leb low m && leb m high
is_between low high (negsuc m) = false

-- The tests of the first two numbers.
abbrev pub is_private_pair : ℤ → ℤ → Bool
is_private_pair a b =
    is_number 10 a
    || is_number 127 a
    || is_number 0 a
    || (is_number 169 a && is_number 254 b)
    || (is_number 172 a && is_between 16 31 b)
    || (is_number 192 a && is_number 168 b)

-- Four parts, each a number.
abbrev pub private_parts : List (Option ℤ) → Bool
private_parts (some a ∷ some b ∷ some c ∷ some d ∷ []) = is_private_pair a b
private_parts _ = false

unfoldable pub is_ipv4_private : Text → Bool
unfolding split_on parse_int
is_ipv4_private host = private_parts (map parse_int (split_on b'.' host))

unfoldable pub is_ipv6_private : Text → Bool
unfolding to_lower eq_text starts_with is_ipv4_private
is_ipv6_private host =
    let value = to_lower host in
    if eq_text value (codes "::1") || eq_text value (codes "::")
    then true
    else (if starts_with value (codes "::ffff:")
        then is_ipv4_private (drop 7 value)
        else starts_with value (codes "fc")
          || starts_with value (codes "fd")
          || starts_with value (codes "fe8")
          || starts_with value (codes "fe9")
          || starts_with value (codes "fea")
          || starts_with value (codes "feb"))

unfoldable pub is_private_network_host : (is_ip : Text → ℕ) → Text → Bool
unfolding to_lower eq_text ends_with is_ipv4_private is_ipv6_private
is_private_network_host is_ip host =
    let value = to_lower host in
    if eq_text value (codes "localhost")
      || ends_with value (codes ".localhost")
      || eq_text value (codes "metadata.google.internal")
    then true
    else (if is_ip value == 4
        then is_ipv4_private value
        else (if is_ip value == 6 then is_ipv6_private value else false))

unfoldable pub host_matches_pattern : Text → Text → Bool
unfolding starts_with ends_with eq_text
host_matches_pattern host pattern_text =
    if starts_with pattern_text (codes "*.")
    then ends_with host (b'.' ∷ drop 2 pattern_text)
    else eq_text host pattern_text

unfoldable pub is_allowlisted_host : Text → List Text → Bool
unfolding host_matches_pattern
is_allowlisted_host host allowlist = any (host_matches_pattern host) allowlist

unfoldable pub env_flag : Option Text → Bool → Bool
unfolding to_lower trim eq_text
env_flag variable fallback =
    let value = to_lower (trim (get_or_else variable [])) in
    if is_empty value
    then fallback
    else eq_text value (codes "1") || eq_text value (codes "true") || eq_text value (codes "yes")

-- The parts of a URL that are read; the protocol ends in a colon.
pub record FetchUrl : Type 0 where
  pub protocol : Text
  pub hostname : Text

-- The variables MCP_AUTH_FETCH_ALLOWED_HOSTS and MCP_AUTH_FETCH_ALLOW_PRIVATE_NETWORKS.
pub record EgressEnv : Type 0 where
  pub allowed_hosts : Option Text
  pub allow_private_networks : Option Text

pub data FetchVerdict : Type 0 where
  fetchable : FetchUrl → FetchVerdict
  invalid_url wrong_protocol : FetchVerdict
  not_allowed private_target : (host : Text) → FetchVerdict

abbrev pub is_http : Text → Bool
is_http protocol = eq_text protocol (codes "http:") || eq_text protocol (codes "https:")

unfoldable pub validate_authenticated_fetch_url :
    (parse_url : Text → Option FetchUrl) → (is_ip : Text → ℕ) → EgressEnv → Text → FetchVerdict
unfolding eq_text to_lower parse_host_allowlist is_allowlisted_host env_flag is_private_network_host
validate_authenticated_fetch_url parse_url is_ip env raw_url = elim (parse_url raw_url) [
  | none ↦ invalid_url
  | some parsed ↦
      let host = to_lower parsed.hostname in
      let allowlist = parse_host_allowlist (get_or_else env.allowed_hosts []) in
      if not (is_http parsed.protocol)
      then wrong_protocol
      else (if not (is_empty allowlist) && not (is_allowlisted_host host allowlist)
          then not_allowed host
          else (if not (env_flag env.allow_private_networks false)
                && is_private_network_host is_ip host
              then private_target host
              else fetchable parsed))
]
