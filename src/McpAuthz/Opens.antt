-- ===== src/McpAuthz/Opens.antt =====
-- Which tokens are accepted, against a description on the variables' raw texts.
use self_agent_id.Base.{
  ℕ, ◌≡◌, ◌⊎◌, inl, inr, refl, ap, sym, ◌∙◌, Bool, true, false, not, some, List, [], ◌∷◌, map, Text,
  codes, eq_text, eq_text_iff, any, keep, is_empty, trim, split_on, length, get_or_else, ==_iff,
  ◌&&◌, ◌||◌, Bool-cases, arith,
}
use self_agent_id.McpAuthz.{
  mcp_privileged_scope, KeyEnv, AuthInfo, authorized, not_configured, unknown_token,
  parse_token_list, unique, get_privileged_api_keys, secure_equals, match_from,
  is_known_privileged_token, verify_mcp_bearer_token, has_privileged_scope,
}

any-without :
    (p : Text → Bool) (t : Text) (l : List Text)
    → (p t || any p (keep (λ u. not (eq_text t u)) l)) ≡ (p t || any p l)
any-without p t [] = refl
any-without p t (u ∷ l) = elim (Bool-cases (eq_text t u)) [
  | inl e ↦ let same = (eq_text_iff t u).0 e in ground (arith, any-without p t l)
  | inr e ↦ ground (arith, any-without p t l)
]

any-unique : (p : Text → Bool) (l : List Text) → any p (unique l) ≡ any p l
unfolding unique
any-unique p [] = refl
any-unique p (t ∷ l) = any-without p t (unique l) ∙ ap (λ b. p t || b) (any-unique p l)

any-entries :
    (p : Text → Bool) (l : List Text)
    → any p (keep (λ v. not (is_empty v)) (map trim l))
      ≡ any (λ raw. not (is_empty (trim raw)) && p (trim raw)) l
any-entries p [] = refl
any-entries p (raw ∷ l) = elim (Bool-cases (is_empty (trim raw))) [
  | inl e ↦ rw (e) (any-entries p l)
  | inr e ↦ rw (e) (ap (λ b. p (trim raw) || b) (any-entries p l))
]

any_of_empty : (p : Text → Bool) (l : List Text) → is_empty l ≡ true → any p l ≡ false
any_of_empty p [] e = refl
any_of_empty p (t ∷ l) e = cc

module _ (to_utf8 : Text → List ℕ) (token : Text) where
  secure_equals-eq :
      (key : Text) → secure_equals to_utf8 token key ≡ eq_text (to_utf8 token) (to_utf8 key)
  unfolding secure_equals
  secure_equals-eq key = elim (Bool-cases (eq_text (to_utf8 token) (to_utf8 key))) [
    | inl e ↦
        let same = ap length ((eq_text_iff (to_utf8 token) (to_utf8 key)).0 e) in
        rw (e, (==_iff (length (to_utf8 token)) (length (to_utf8 key))).1 same) refl
    | inr e ↦ ground arith
  ]

  match_from-any :
      (matched : Bool) (l : List Text)
      → match_from to_utf8 token matched l
        ≡ (matched || any (λ key. eq_text (to_utf8 token) (to_utf8 key)) l)
  unfolding match_from
  match_from-any true [] = refl
  match_from-any false [] = refl
  match_from-any matched (key ∷ l) =
      match_from-any (secure_equals to_utf8 token key || matched) l
      ∙ ground (arith, secure_equals-eq key)

  -- The token is, byte for byte, an entry of the variables with the spaces around it cut off.
  abbrev pub opens : KeyEnv → Bool
  opens env =
      any (λ raw. not (is_empty (trim raw)) && eq_text (to_utf8 token) (to_utf8 (trim raw)))
        (get_or_else env.api_key [] ∷ split_on b',' (get_or_else env.api_keys []))

  any-keys :
      (p : Text → Bool) (env : KeyEnv)
      → any p (get_privileged_api_keys env)
        ≡ any
            (λ raw. not (is_empty (trim raw)) && p (trim raw))
            (get_or_else env.api_key [] ∷ split_on b',' (get_or_else env.api_keys []))
  unfolding get_privileged_api_keys parse_token_list
  any-keys p env =
      let entries = any-entries p (split_on b',' (get_or_else env.api_keys [])) in
      elim (Bool-cases (is_empty (trim (get_or_else env.api_key [])))) [
        | inl e ↦ rw (e, any-unique) entries
        | inr e ↦ rw (e, any-unique) (ap (λ b. p (trim (get_or_else env.api_key [])) || b) entries)
      ]

  known-opens :
      (env : KeyEnv)
      → is_known_privileged_token to_utf8 token (get_privileged_api_keys env) ≡ opens env
  unfolding is_known_privileged_token
  known-opens env =
      match_from-any false (get_privileged_api_keys env)
      ∙ any-keys (λ key. eq_text (to_utf8 token) (to_utf8 key)) env

  -- What `verifyMcpBearerToken` makes of a token that is accepted.
  abbrev pub privileged : AuthInfo
  privileged = record {
    token = token;
    client_id = codes "mcp-privileged";
    scopes = mcp_privileged_scope ∷ [];
  }

  -- `verifyMcpBearerToken` accepts a bearer token that is not empty exactly where it is, byte for byte,
  -- the text of `MCP_PRIVILEGED_API_KEY` or an entry between the commas of `MCP_PRIVILEGED_API_KEYS`,
  -- without the white space around it and not empty. It is then given the scope that
  -- `hasPrivilegedScope` asks for. Any other token is an error.
  pub verify-opens :
      (env : KeyEnv)
      → is_empty token ≡ false
      → ((opens env ≡ true)
          × (verify_mcp_bearer_token to_utf8 env (some token) ≡ authorized privileged)
          × (has_privileged_scope (some (some privileged.scopes)) ≡ true))
        ⊎ ((opens env ≡ false)
            × ((verify_mcp_bearer_token to_utf8 env (some token) ≡ not_configured)
                ⊎ (verify_mcp_bearer_token to_utf8 env (some token) ≡ unknown_token)))
  unfolding verify_mcp_bearer_token has_privileged_scope eq_text
  verify-opens env h = elim (Bool-cases (is_empty (get_privileged_api_keys env))) [
    | inl e ↦ inr (
      sym (any-keys (λ key. eq_text (to_utf8 token) (to_utf8 key)) env) ∙ any_of_empty _ _ e,
      inl (rw (h, e, verify_mcp_bearer_token) refl),
    )
    | inr e ↦ elim (Bool-cases (opens env)) [
      | inl o ↦ inl (o, rw (h, e, known-opens env ∙ o, verify_mcp_bearer_token) refl, refl)
      | inr o ↦ inr (o, inr (rw (h, e, known-opens env ∙ o, verify_mcp_bearer_token) refl))
    ]
  ]
