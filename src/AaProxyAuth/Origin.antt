-- ===== src/AaProxyAuth/Origin.antt =====
-- Which requests pass the test of the origin.
use self_agent_id.Base.{
  ◌≡◌, ◌≢◌, refl, ◌⊎◌, inl, inr, ◌↔◌, true, false, Option, none, some, List, [], ◌∷◌, Text, codes,
  eq_text, eq_text_iff, arith, Bool-cases, Option-cases, any,
}
use self_agent_id.Verifier.Auth.{truthy}
use self_agent_id.AaProxyAuth.{
  Node, ProxyConfig, NextRequest, OriginParts, allowed, candidate_of, host_result, parsed_result,
  validate_allowed_origin,
}

-- The origin is on the list, or without a list its host is that of the request.
abbrev pub IsAllowedOrigin : ProxyConfig → NextRequest → OriginParts → Type 0
IsAllowedOrigin config req parsed =
    ((config.allowed_origins ≢ [])
      × (any (λ o. eq_text o parsed.origin) config.allowed_origins ≡ true))
    ⊎ ((config.allowed_origins ≡ []) × (truthy (req.header (codes "host")) ≡ some parsed.host))

host_result_iff : (o : Option Text) (host : Text) → (host_result o host ≡ allowed) ↔ (o ≡ some host)
host_result_iff none host = (λ h. cc, λ h. cc)
host_result_iff (some expected) host =
    (λ h. ground (arith, eq_text_iff host expected), λ h. ground (arith, eq_text_iff host expected))

uncons_or_empty {ℓ} :
    {A : Type ℓ} (xs : List A) → (xs ≡ []) ⊎ ((x : A) × (rest : List A) × (xs ≡ x ∷ rest))
uncons_or_empty [] = inl refl
uncons_or_empty (x ∷ rest) = inr (x, rest, refl)

parsed_result_iff :
    (config : ProxyConfig) (req : NextRequest) (parsed : OriginParts)
    → (parsed_result config req parsed ≡ allowed) ↔ IsAllowedOrigin config req parsed
parsed_result_iff config req parsed =
    let on_host = host_result_iff (truthy (req.header (codes "host"))) parsed.host in
    elim (uncons_or_empty config.allowed_origins) [
      | inl none_listed ↦ rw none_listed (
        λ h. inr (refl, on_host.0 h),
        λ e. elim e [ inl (full, x) ↦ absurd (full refl) | inr (x, k) ↦ on_host.1 k ],
      )
      | inr (o, os, listed) ↦ rw listed (
        λ h. inl (λ e. cc, ground arith),
        λ e. elim e [ inl (full, k) ↦ ground arith | inr (no_list, k) ↦ absurd (cc) ],
      )
    ]

-- `validateAllowedOrigin` allows a request exactly where the test is switched off, or where the
-- request's `origin`, or else its `referer`, is a URL whose origin is on the configured list, or
-- whose host is the request's own `host` if the list is empty.
pub validate-allowed_iff :
    (node : Node) (config : ProxyConfig) (req : NextRequest)
    → (validate_allowed_origin node config req ≡ allowed) ↔ (
        (config.enforce_origin ≡ false)
        ⊎ ((candidate : Text) × (parsed : OriginParts) × (candidate_of req ≡ some candidate)
            × (node.parse_url candidate ≡ some parsed)
            × IsAllowedOrigin config req parsed))
unfolding validate_allowed_origin
validate-allowed_iff node config req = (
  λ h. elim (Bool-cases config.enforce_origin) [
    | inr off ↦ inl off
    | inl on ↦ elim (Option-cases (candidate_of req)) [
      | inl missing ↦ absurd (ground arith)
      | inr (candidate, e) ↦ elim (Option-cases (node.parse_url candidate)) [
        | inl invalid ↦ absurd (ground arith)
        | inr (parsed, f) ↦
            inr (candidate, parsed, e, f, (parsed_result_iff config req parsed).0 (ground arith))
      ]
    ]
  ],
  λ h. elim h [
    | inl off ↦ rw off refl
    | inr (candidate, parsed, e, f, k) ↦ elim (Bool-cases config.enforce_origin) [
      | inr off ↦ rw off refl
      | inl on ↦ rw (on, e, f, validate_allowed_origin) ((parsed_result_iff config req parsed).1 k)
    ]
  ],
)
