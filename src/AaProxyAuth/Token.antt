-- ===== src/AaProxyAuth/Token.antt =====
-- What an accepted token of the AA proxy stands for.
use self_agent_id.Base.{
  inr, inl, ℕ, ◌<◌, ◌≡◌, ◌≢◌, refl, ap, true, false, some, [], Text, eq_text, eq_text_iff, arith,
  Option-cases, is_empty, length, ◌==◌, and_true,
}
use self_agent_id.Base.Int.{ℤ, pos, negsuc}
use self_agent_id.AaProxyAuth.{
  Node, ProxyConfig, TokenPayload, NextRequest, ParsedToken, parse_token, sign, get_client_ip,
  get_ua_hash, valid, is_past, same_signature, check_payload, verify_aa_proxy_token,
}

-- What an accepted token proves.
pub record IsAuthorized (node : Node) (config : ProxyConfig) (now : ℕ) (req : NextRequest)
    (token chain_id : Text) : Type 0 where
  pub parsed : ParsedToken
  pub reads : parse_token node token ≡ some parsed
  pub configured : config.token_secret ≢ []
  -- The signature is the keyed hash of the very text that the payload was read from.
  pub signed :
      node.to_utf8 (sign node config.token_secret parsed.payload_b64) ≡ node.to_utf8 parsed.sig_b64
  pub expiry : ℕ
  pub live : (parsed.payload.exp ≡ pos expiry) × (now < expiry)
  pub chain : parsed.payload.chain_id ≡ chain_id
  pub ip : parsed.payload.ip ≡ get_client_ip req
  pub client : parsed.payload.ua_hash ≡ get_ua_hash node req

is_past-false :
    (now : ℕ) (exp : ℤ)
    → is_past now exp ≡ false
    → (expiry : ℕ) × (exp ≡ pos expiry) × (now < expiry)
is_past-false now (pos expiry) h = (expiry, refl, ground arith)
is_past-false now (negsuc n) h = cc

check_payload-valid :
    (node : Node) (now : ℕ) (req : NextRequest) (chain_id : Text) (payload : TokenPayload)
    → check_payload node now req chain_id payload ≡ valid
    → (is_past now payload.exp ≡ false)
      × (payload.chain_id ≡ chain_id)
      × (payload.ip ≡ get_client_ip req)
      × (payload.ua_hash ≡ get_ua_hash node req)
unfolding check_payload
check_payload-valid node now req chain_id payload h = ground (
  arith,
  eq_text_iff payload.chain_id chain_id,
  eq_text_iff payload.ip (get_client_ip req),
  eq_text_iff payload.ua_hash (get_ua_hash node req),
)

same_signature-true :
    (node : Node) (a b : Text) → same_signature node a b ≡ true → node.to_utf8 a ≡ node.to_utf8 b
same_signature-true node a b h =
    (eq_text_iff (node.to_utf8 a) (node.to_utf8 b)).0
      (and_true (length (node.to_utf8 a) == length (node.to_utf8 b))
        (eq_text (node.to_utf8 a) (node.to_utf8 b)) h).1

-- A token that `verifyAaProxyToken` accepts is signed with the configured secret, which is not
-- empty: its signature equals the keyed hash of its payload text, byte by byte. The payload has not
-- expired, and names the chain, the client's address and the hash of the client's user agent.
pub verify-IsAuthorized :
    (node : Node) (config : ProxyConfig) (now : ℕ) (req : NextRequest) (token chain_id : Text)
    → verify_aa_proxy_token node config now req token chain_id ≡ valid
    → IsAuthorized node config now req token chain_id
unfolding verify_aa_proxy_token
verify-IsAuthorized node config now req token chain_id h =
    elim (Option-cases (parse_token node token)) [
      | inl e ↦ absurd (ground arith)
      | inr (parsed, e) ↦
          let same : same_signature node (sign node config.token_secret parsed.payload_b64)
                parsed.sig_b64
              ≡ true =
            ground arith in
          let c : check_payload node now req chain_id parsed.payload ≡ valid = ground arith in
          let some_secret : is_empty config.token_secret ≡ false = ground arith in
          let (in_time, chain, ip, client) =
            check_payload-valid node now req chain_id parsed.payload c in
          let (expiry, stated, early) = is_past-false now parsed.payload.exp in_time in
          record {
            parsed = parsed;
            reads = e;
            configured = λ empty. ground (arith, ap is_empty empty);
            signed = same_signature-true node _ _ same;
            expiry = expiry;
            live = (stated, early);
            chain = chain;
            ip = ip;
            client = client;
          }
    ]
