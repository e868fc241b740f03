-- ===== src/AaProxyAuth/Issue.antt =====
-- An issued token of the AA proxy against its verification.
use mathlib.Core.Path.{subst}
use self_agent_id.Base.{
  sym, ℕ, ◌+◌, ◌<◌, ◌≡◌, ◌≢◌, refl, ap, true, false, some, List, [], ◌∷◌, ◌++◌, Text, codes, max,
  eq_text, eq_text_refl, arith, is_empty, split_on, split_on_last, split_on-append, All, length,
  ◌==◌, ==_iff,
}
use self_agent_id.Base.Int.{pos}
use self_agent_id.A2aServer.{find_field}
use self_agent_id.AaProxyAuth.{
  Node, ProxyConfig, TokenPayload, NextRequest, ParsedToken, payload_json, payload_of, parse_token,
  two_parts, sign, get_client_ip, get_ua_hash, issue_aa_proxy_token, issued, valid, is_past,
  same_signature, check_payload, verify_aa_proxy_token,
}

-- The text of a payload in a token.
abbrev pub encoded : Node → TokenPayload → Text
encoded node payload = node.to_base64_url (node.to_utf8 (node.stringify (payload_json payload)))

-- What Node's encodings do: a payload is read back from its text, base64url has no dot, and
-- neither a payload nor a digest is encoded by the empty text.
pub record IsFaithful (node : Node) : Type 0 where
  pub reads_back :
      (payload : TokenPayload)
      → node.parse (node.from_utf8 (node.from_base64_url (encoded node payload)))
        ≡ some (payload_json payload)
  pub no_dot : (bytes : List ℕ) → All (λ c. (c == b'.') ≡ false) (node.to_base64_url bytes)
  pub payload_text : (payload : TokenPayload) → encoded node payload ≢ []
  pub digest_text : (secret text : Text) → node.to_base64_url (node.hmac_sha256 secret text) ≢ []

two_parts-full : (s t : Text) → s ≢ [] → t ≢ [] → two_parts (s ∷ t ∷ []) ≡ some (s, t)
two_parts-full [] t h k = absurd (h refl)
two_parts-full (c ∷ s) [] h k = absurd (k refl)
two_parts-full (c ∷ s) (d ∷ t) h k = refl

pub payload_of-payload_json :
    (payload : TokenPayload) → payload_of (payload_json payload) ≡ some payload
unfolding payload_of find_field eq_text
payload_of-payload_json payload = refl

module _ (node : Node) (faithful : IsFaithful node) where
  parse_token-issued :
      (secret : Text) (payload : TokenPayload)
      → parse_token node
          (encoded node payload ++ (codes "." ++ sign node secret (encoded node payload)))
        ≡ some (record {
          payload = payload;
          payload_b64 = encoded node payload;
          sig_b64 = sign node secret (encoded node payload);
        })
  unfolding parse_token sign
  parse_token-issued secret payload =
      let text = encoded node payload in
      let signature = node.to_base64_url (node.hmac_sha256 secret text) in
      let parts : two_parts (split_on b'.' (text ++ (codes "." ++ signature)))
          ≡ some (text, signature) =
        rw
          (
            split_on-append b'.' text signature
                (faithful.no_dot (node.to_utf8 (node.stringify (payload_json payload)))),
            split_on_last b'.' signature (faithful.no_dot (node.hmac_sha256 secret text)),
          )
          (two_parts-full text signature (faithful.payload_text payload)
            (faithful.digest_text secret text)) in
      rw (parts, faithful.reads_back payload, payload_of-payload_json payload) refl

  same_signature_refl : (s : Text) → same_signature node s s ≡ true
  same_signature_refl s = ground (
    arith,
    eq_text_refl (node.to_utf8 s),
    (==_iff (length (node.to_utf8 s)) (length (node.to_utf8 s))).1 refl,
  )

  check_payload-live :
      (now exp : ℕ) (req : NextRequest) (payload : TokenPayload)
      → payload.exp ≡ pos exp
      → now < exp
      → payload.ip ≡ get_client_ip req
      → payload.ua_hash ≡ get_ua_hash node req
      → check_payload node now req payload.chain_id payload ≡ valid
  unfolding check_payload
  check_payload-live now exp req payload e early ip client =
      let live : is_past now payload.exp ≡ false = rw e (ground arith) in
      rw
        (
          live,
          eq_text_refl payload.chain_id,
          ip,
          eq_text_refl (get_client_ip req),
          client,
          eq_text_refl (get_ua_hash node req),
        )
        refl

  -- A token that `issueAaProxyToken` issues expires after the configured time to live, at least ten
  -- seconds; until then `verifyAaProxyToken` accepts it for the same chain, from a client with the same
  -- address and user agent, where Node's encodings and JSON are faithful.
  pub issue_verify :
      (config : ProxyConfig) (now later exp : ℕ) (req req2 : NextRequest) (chain_id token : Text)
      → issue_aa_proxy_token node config now req chain_id ≡ issued token exp
      → get_client_ip req ≡ get_client_ip req2
      → get_ua_hash node req ≡ get_ua_hash node req2
      → later < exp
      → (exp ≡ now + max 10000 config.token_ttl_ms)
        × (verify_aa_proxy_token node config later req2 token chain_id ≡ valid)
  unfolding issue_aa_proxy_token verify_aa_proxy_token
  issue_verify config now later exp req req2 chain_id token h ip client early =
      let payload : TokenPayload = record {
        exp = pos (now + max 10000 config.token_ttl_ms);
        chain_id = chain_id;
        ip = get_client_ip req;
        ua_hash = get_ua_hash node req;
      } in
      let some_secret : is_empty config.token_secret ≡ false = ground arith in
      let text : encoded node payload
            ++ (codes "." ++ sign node config.token_secret (encoded node payload))
          ≡ token =
        ground arith in
      let stated : now + max 10000 config.token_ttl_ms ≡ exp = ground arith in
      let parsed : ParsedToken = record {
        payload = payload;
        payload_b64 = encoded node payload;
        sig_b64 = sign node config.token_secret (encoded node payload);
      } in
      let reads =
        subst (λ t. parse_token node t ≡ some parsed) text
          (parse_token-issued config.token_secret payload) in
      let checked = check_payload-live later exp req2 payload (ap pos stated) early ip client in
      (
        sym stated,
        rw
            (
              some_secret,
              reads,
              same_signature_refl (sign node config.token_secret (encoded node payload)),
              verify_aa_proxy_token,
            )
            checked,
      )
