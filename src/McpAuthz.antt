-- ===== src/McpAuthz.antt =====
-- app/lib/mcp/authz.ts: which bearer tokens open the privileged tools of the MCP server. The encoding
-- of a text in UTF-8 is a parameter.
pub mod Opens
mod Examples
use self_agent_id.Base.{
  ℕ, Bool, true, false, not, Option, none, some, List, [], ◌∷◌, map, Text, codes, eq_text, any,
  keep, is_empty, trim, split_on, length, get_or_else, if◌then◌else◌, ◌==◌, ◌&&◌, ◌||◌,
}

abbrev pub mcp_privileged_scope : Text
mcp_privileged_scope = codes "mcp:privileged"

unfoldable pub parse_token_list : Text → List Text
unfolding split_on trim
parse_token_list raw = keep (λ v. not (is_empty v)) (map trim (split_on b',' raw))

-- `[...new Set(all)]`: each text where it stands first.
unfoldable pub unique : List Text → List Text
unfolding eq_text
unique [] = []
unique (t ∷ rest) = t ∷ keep (λ u. not (eq_text t u)) (unique rest)

-- The variables MCP_PRIVILEGED_API_KEY and MCP_PRIVILEGED_API_KEYS.
pub record KeyEnv : Type 0 where
  pub api_key : Option Text
  pub api_keys : Option Text

unfoldable pub get_privileged_api_keys : KeyEnv → List Text
unfolding trim parse_token_list unique
get_privileged_api_keys env =
    let single = trim (get_or_else env.api_key []) in
    let list = parse_token_list (get_or_else env.api_keys []) in
    unique (if not (is_empty single) then single ∷ list else list)

pub record AuthInfo : Type 0 where
  pub token : Text
  pub client_id : Text
  pub scopes : List Text

pub data BearerResult : Type 0 where
  no_token : BearerResult
  authorized : AuthInfo → BearerResult
  not_configured unknown_token : BearerResult

module _ (to_utf8 : Text → List ℕ) where
  unfoldable pub secure_equals : Text → Text → Bool
  unfolding eq_text
  secure_equals a b = (length (to_utf8 a) == length (to_utf8 b)) && eq_text (to_utf8 a) (to_utf8 b)

  -- The loop over the known tokens, after what it has found so far.
  unfoldable pub match_from : Text → Bool → List Text → Bool
  unfolding secure_equals
  match_from token matched [] = matched
  match_from token matched (candidate ∷ rest) =
      match_from token (secure_equals token candidate || matched) rest

  unfoldable pub is_known_privileged_token : Text → List Text → Bool
  unfolding match_from
  is_known_privileged_token token known_tokens = match_from token false known_tokens

  unfoldable pub verify_mcp_bearer_token : KeyEnv → Option Text → BearerResult
  unfolding get_privileged_api_keys is_known_privileged_token
  verify_mcp_bearer_token env none = no_token
  verify_mcp_bearer_token env (some token) =
      let keys = get_privileged_api_keys env in
      if is_empty token
      then no_token
      else (if is_empty keys
          then not_configured
          else (if not (is_known_privileged_token token keys)
              then unknown_token
              else authorized (record {
                token = token;
                client_id = codes "mcp-privileged";
                scopes = mcp_privileged_scope ∷ [];
              })))

-- The scopes of the caller, if it is known and has any.
unfoldable pub has_privileged_scope : Option (Option (List Text)) → Bool
unfolding eq_text
has_privileged_scope (some (some scopes)) = any (λ s. eq_text s mcp_privileged_scope) scopes
has_privileged_scope _ = false
