-- ===== src/McpEgress/Examples.antt =====
-- Tests of the egress rules, and their theorems at concrete addresses.
use self_agent_id.Base.{
  ℕ, ◌==◌, ◌≡◌, ◌⊎◌, refl, true, false, Option, none, some, [], ◌∷◌, Text, codes, eq_text,
  starts_with, split_on, trim, trim_start, is_white, to_lower, print_nat, digits_from,
  if◌then◌else◌, get_or_else, arith,
}
use self_agent_id.Signing.{parse_int, parse_digits}
use self_agent_id.McpEgress.{
  is_http, EgressEnv, FetchUrl, fetchable, private_target, not_allowed, ends_with, env_flag,
  parse_host_allowlist, is_allowlisted_host, host_matches_pattern, is_private_network_host,
  is_ipv4_private, is_ipv6_private, validate_authenticated_fetch_url,
}
use self_agent_id.McpEgress.Quads.{quad, address_of, IsPrivate, validate-quad}
use self_agent_id.McpEgress.Brackets.{bracketed, validate-bracketed}

program : Unit {0}
unfolding eq_text starts_with ends_with split_on trim trim_start is_white to_lower parse_int
    parse_digits print_nat digits_from env_flag parse_host_allowlist is_allowlisted_host
    host_matches_pattern is_private_network_host is_ipv4_private is_ipv6_private
    validate_authenticated_fetch_url
program = tt

abbrev parse_url : Text → Option FetchUrl
parse_url raw = some (record { protocol = codes "http:"; hostname = raw })

-- A text that begins with a bracket is no address, and any other is taken for one.
abbrev is_ip : Text → ℕ
is_ip [] = 0
is_ip (c ∷ s) = if c == b'[' then 0 else 4

abbrev strict : EgressEnv
strict = record { allowed_hosts = none; allow_private_networks = none }

abbrev listed : EgressEnv
listed = record { allowed_hosts = some (codes " *.Example.org ,a"); allow_private_networks = none }

inside_list :
    validate_authenticated_fetch_url parse_url is_ip listed (codes "b.example.org")
    ≡ fetchable (record { protocol = codes "http:"; hostname = codes "b.example.org" })
unfolding program
inside_list = refl

outside_list :
    validate_authenticated_fetch_url parse_url is_ip listed (codes "b") ≡ not_allowed (codes "b")
unfolding program
outside_list = refl

no_list : parse_host_allowlist (get_or_else strict.allowed_hosts []) ≡ []
unfolding program
no_list = refl

no_permission : env_flag strict.allow_private_networks false ≡ false
unfolding program
no_permission = refl

abbrev url : Text → FetchUrl
url host = record { protocol = codes "http:"; hostname = host }

is_http_url : is_http (codes "http:") ≡ true
unfolding program
is_http_url = refl

ten_is_ip : is_ip (quad 10 0 0 1) ≡ 4
unfolding program
ten_is_ip = refl

validate-quad_example :
    ((validate_authenticated_fetch_url parse_url is_ip strict (quad 10 0 0 1)
        ≡ private_target (quad 10 0 0 1))
      × IsPrivate (address_of 10 0 0 1))
    ⊎ ((validate_authenticated_fetch_url parse_url is_ip strict (quad 10 0 0 1)
          ≡ fetchable (url (quad 10 0 0 1)))
        × (¬ IsPrivate (address_of 10 0 0 1)))
validate-quad_example =
    validate-quad parse_url is_ip strict (quad 10 0 0 1) (url (quad 10 0 0 1)) 10 0 0 1 refl
      is_http_url refl ten_is_ip (omega arith) (omega arith) (omega arith) no_list no_permission

validate-bracketed_example :
    validate_authenticated_fetch_url parse_url is_ip strict (bracketed (codes "::1"))
    ≡ fetchable (url (bracketed (codes "::1")))
validate-bracketed_example =
    validate-bracketed parse_url is_ip strict (bracketed (codes "::1"))
      (url (bracketed (codes "::1"))) (codes "::1") refl is_http_url refl (λ s. refl) no_list
