-- ===== src/Middleware/Admits.antt =====
-- Which requests the middleware lets through.
use self_agent_id.Base.{
  sym, ◌∙◌, codes, get_or_else, ◌∷◌, ℕ, ◌≡◌, ◌≢◌, refl, true, Option, none, some, [], Text, arith,
  Option-cases, ◌⊎◌, inl, inr, ◌<◌,
}
use self_agent_id.Verifier.{Verifier, VerificationResult}
use self_agent_id.Verifier.Auth.{World, VerifyParams, truthy}
use self_agent_id.Verifier.Verify.{verify}
use self_agent_id.Verifier.Verify.Facts.{IsAccepted}
use self_agent_id.Verifier.Verify.Accepts.{verify-IsAccepted}
use self_agent_id.Middleware.{
  as_string, keytype_header, key_header, request_url, Platform, MiddlewareReq, Agent, Outcome,
  responded, passed, rejected, header, signature_header, timestamp_header, params_of, request_body,
  respond, respond_to, verify_and_respond, with_body, auth, Stringified, json, undefined, fails,
}
use self_agent_id.Middleware.Request.{
  IsStringified, IsBody, string_header, header_lem, request_body_lem,
}

-- The agent that the handler behind the middleware sees is the one of a valid result.
abbrev pub Describes : Agent → VerificationResult → Type 0
Describes agent r =
    (agent.address ≡ r.agent_address)
    × (agent.agent_key ≡ r.agent_key)
    × (agent.agent_id ≡ r.agent_id)
    × (agent.credentials ≡ r.credentials)

-- What holds of a request that the middleware lets through. The parameters of `verify` are those of the
-- request.
pub record IsAdmitted {J : Type 0} (w : World) (platform : Platform J) (req : MiddlewareReq J)
    (v : Verifier) (agent : Agent) : Type 0 where
  pub params : VerifyParams
  pub result : VerificationResult
  pub signature : string_header signature_header req.headers ≡ some params.signature
  pub timestamp : string_header timestamp_header req.headers ≡ some params.timestamp
  pub keytype : params.keytype ≡ string_header keytype_header req.headers
  pub agent_key : params.agent_key ≡ string_header key_header req.headers
  pub method : params.method ≡ get_or_else (as_string req.method) (codes "GET")
  pub url :
      params.url
      ≡ get_or_else (as_string req.original_url) (get_or_else (as_string req.url) (codes "/"))
  pub body : IsBody platform req.raw_body req.body params.body
  pub present : (params.signature ≢ []) × (params.timestamp ≢ [])
  pub accepted : IsAccepted w params v result
  pub described : Describes agent result

truthy-some : (o : Option Text) (s : Text) → truthy o ≡ some s → (o ≡ some s) × (s ≢ [])
truthy-some none s h = cc
truthy-some (some []) s h = cc
truthy-some (some (c ∷ cs)) s h = (h, λ e. cc)

verify_and_respond-passed :
    (w : World) (params : VerifyParams) (v : Verifier) (agent : Agent)
    → (verify_and_respond w params v).0 ≡ passed agent
    → (r : VerificationResult) × ((verify w params v).0 ≡ some r)
      × (r.valid ≡ true)
      × Describes agent r
unfolding verify_and_respond respond_to respond
verify_and_respond-passed w params v agent h = elim (Option-cases (verify w params v).0) [
  | inl e ↦ absurd (ground arith)
  | inr (r, e) ↦ (r, e, ground arith, ground arith)
]

module _ {J : Type 0} (w : World) (platform : Platform J) (req : MiddlewareReq J)
    (v : Verifier) where
  with_body-passed :
      (signature timestamp : Text) (b : Stringified) (agent : Agent)
      → (with_body w platform signature timestamp b req v).0 ≡ passed agent
      → (body : Option Text) × (IsStringified b body)
        × ((verify_and_respond w (params_of signature timestamp body req) v).0 ≡ passed agent)
  unfolding with_body
  with_body-passed signature timestamp fails agent h = cc
  with_body-passed signature timestamp undefined agent h = (none, refl, h)
  with_body-passed signature timestamp (json body) agent h = (some body, refl, h)

  auth-passed :
      (agent : Agent)
      → (auth w platform req v).0 ≡ passed agent
      → (signature : Text) × (timestamp : Text) × (truthy (header signature_header req)
          ≡ some signature)
        × (truthy (header timestamp_header req) ≡ some timestamp)
        × ((with_body w platform signature timestamp (request_body platform req) req v).0
            ≡ passed agent)
  unfolding auth
  auth-passed agent h = elim (Option-cases (truthy (header signature_header req))) [
    | inl e ↦ absurd (ground arith)
    | inr (signature, e) ↦ elim (Option-cases (truthy (header timestamp_header req))) [
      | inl f ↦ absurd (ground arith)
      | inr (timestamp, f) ↦ (signature, timestamp, e, f, ground arith)
    ]
  ]

  -- The middleware calls `next()` only for a request whose signature and timestamp headers are
  -- strings that are not empty, and which `verify` accepts: with these headers, the key and key type
  -- headers, the method, the URL and the body of this very request, and so that all the facts of an
  -- accepted request hold of it. `req.agent` holds what was proved.
  pub auth-IsAdmitted :
      (agent : Agent) → (auth w platform req v).0 ≡ passed agent → IsAdmitted w platform req v agent
  unfolding params_of request_url
  auth-IsAdmitted agent h =
      let (signature, timestamp, e, f, k) = auth-passed agent h in
      let (body, made, l) =
        with_body-passed signature timestamp (request_body platform req) agent k in
      let params = params_of signature timestamp body req in
      let (r, returned, valid, described) = verify_and_respond-passed w params v agent l in
      record {
        params = params;
        result = r;
        signature =
            sym (header_lem signature_header req)
            ∙ (truthy-some (header signature_header req) signature e).0;
        timestamp =
            sym (header_lem timestamp_header req)
            ∙ (truthy-some (header timestamp_header req) timestamp f).0;
        keytype = header_lem keytype_header req;
        agent_key = header_lem key_header req;
        method = refl;
        url = refl;
        body = request_body_lem platform req body made;
        present = (
          (truthy-some (header signature_header req) signature e).1,
          (truthy-some (header timestamp_header req) timestamp f).1,
        );
        accepted = verify-IsAccepted w params v r returned valid;
        described = described;
      }

-- What a refusal says: 429 with the time to wait, which is not zero, or 401 without one.
abbrev pub IsRefusal : Outcome → Type 0
IsRefusal (passed agent) = Unit
IsRefusal rejected = Unit
IsRefusal (responded r) =
    ((r.status ≡ 401) × (r.retry_after_ms ≡ none))
    ⊎ ((r.status ≡ 429) × (ms : ℕ) × (0 < ms) × (r.retry_after_ms ≡ some ms))

respond-IsRefusal : (r : VerificationResult) → IsRefusal (respond r)
unfolding respond
respond-IsRefusal r = ground arith

module _ {J : Type 0} (w : World) (platform : Platform J) (req : MiddlewareReq J)
    (v : Verifier) where
  verify_and_respond-IsRefusal :
      (params : VerifyParams) → IsRefusal (verify_and_respond w params v).0
  unfolding verify_and_respond respond_to
  verify_and_respond-IsRefusal params = elim (Option-cases (verify w params v).0) [
    | inl e ↦ rw e tt
    | inr (r, e) ↦ rw e (respond-IsRefusal r)
  ]

  with_body-IsRefusal :
      (signature timestamp : Text) (b : Stringified)
      → IsRefusal (with_body w platform signature timestamp b req v).0
  unfolding with_body
  with_body-IsRefusal signature timestamp fails = tt
  with_body-IsRefusal signature timestamp undefined =
      verify_and_respond-IsRefusal (params_of signature timestamp none req)
  with_body-IsRefusal signature timestamp (json body) =
      verify_and_respond-IsRefusal (params_of signature timestamp (some body) req)

  -- Every response of the middleware is a 429 that states a time to wait which is not zero, or a
  -- 401 that states none.
  pub auth-IsRefusal : IsRefusal (auth w platform req v).0
  unfolding auth
  auth-IsRefusal = elim (Option-cases (truthy (header signature_header req))) [
    | inl e ↦ rw (e, auth, IsRefusal) (inl (refl, refl))
    | inr (signature, e) ↦ elim (Option-cases (truthy (header timestamp_header req))) [
      | inl f ↦ rw (e, f, auth, IsRefusal) (inl (refl, refl))
      | inr (timestamp, f) ↦
          rw (e, f, auth) (with_body-IsRefusal signature timestamp (request_body platform req))
    ]
  ]
