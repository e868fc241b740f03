-- ===== src/McpAuthz/Examples.antt =====
-- Tests of the bearer tokens, and their theorem at a concrete token.
use self_agent_id.Base.{
  ◌≡◌, ◌∷◌, [], ◌⊎◌, refl, true, false, none, some, Text, codes, List, ℕ, trim, trim_start,
  is_white, split_on, eq_text,
}
use self_agent_id.McpAuthz.{
  KeyEnv, authorized, not_configured, unknown_token, parse_token_list, unique,
  get_privileged_api_keys, secure_equals, match_from, is_known_privileged_token,
  verify_mcp_bearer_token, has_privileged_scope,
}
use self_agent_id.McpAuthz.Opens.{opens, privileged, verify-opens}

program : Unit {0}
unfolding trim trim_start is_white split_on eq_text parse_token_list unique get_privileged_api_keys
    secure_equals match_from is_known_privileged_token verify_mcp_bearer_token
program = tt

-- An encoding that keeps the code units, which UTF-8 does for ASCII.
abbrev ascii : Text → List ℕ
ascii text = text

abbrev two_keys : KeyEnv
two_keys = record { api_key = some (codes " a1 "); api_keys = some (codes "b2, a1,,") }

abbrev no_keys : KeyEnv
no_keys = record { api_key = none; api_keys = some (codes " , ") }

keys_of_two : get_privileged_api_keys two_keys ≡ codes "a1" ∷ codes "b2" ∷ []
unfolding program
keys_of_two = refl

second_key :
    verify_mcp_bearer_token ascii two_keys (some (codes "b2"))
    ≡ authorized (privileged ascii (codes "b2"))
unfolding program
second_key = refl

other_key : verify_mcp_bearer_token ascii two_keys (some (codes "b")) ≡ unknown_token
unfolding program
other_key = refl

without_keys : verify_mcp_bearer_token ascii no_keys (some (codes "b")) ≡ not_configured
unfolding program
without_keys = refl

verify-opens_example :
    ((opens ascii (codes "b2") two_keys ≡ true)
      × (verify_mcp_bearer_token ascii two_keys (some (codes "b2"))
          ≡ authorized (privileged ascii (codes "b2")))
      × (has_privileged_scope (some (some (privileged ascii (codes "b2")).scopes)) ≡ true))
    ⊎ ((opens ascii (codes "b2") two_keys ≡ false)
        × ((verify_mcp_bearer_token ascii two_keys (some (codes "b2")) ≡ not_configured)
            ⊎ (verify_mcp_bearer_token ascii two_keys (some (codes "b2")) ≡ unknown_token)))
verify-opens_example = verify-opens ascii (codes "b2") two_keys refl
