-- ===== src/McpEgress/Brackets.antt =====
-- IPv6 literals, which a URL's host name holds in brackets, against the test for private networks.
use mathlib.Core.Path.{subst}
use self_agent_id.Base.{
  ℕ, ◌≡◌, refl, ap, sym, ◌∙◌, inl, inr, true, false, Option, some, [], ◌∷◌, ◌++◌, Text, codes,
  eq_text, eq_text_iff, to_lower, All, arith, ◌==◌, Bool-cases, is_empty, get_or_else, lower_code,
}
use self_agent_id.McpEgress.{
  ends_with, EgressEnv, FetchUrl, fetchable, is_http, env_flag, parse_host_allowlist,
  is_private_network_host, validate_authenticated_fetch_url,
}

-- A text in brackets.
abbrev pub bracketed : Text → Text
bracketed s = b'[' ∷ (s ++ b']' ∷ [])

abbrev NoBracket : Text → Type 0
NoBracket s = All (λ c. (c == b']') ≡ false) s

not-NoBracket : (s : Text) → ¬ NoBracket (s ++ b']' ∷ [])
not-NoBracket [] (h, rest) = cc
not-NoBracket (c ∷ s) (h, rest) = not-NoBracket s rest

not_equal : (s t : Text) → NoBracket t → eq_text (s ++ b']' ∷ []) t ≡ false
not_equal s t h = elim (Bool-cases (eq_text (s ++ b']' ∷ []) t)) [
  | inl e ↦
      let same = (eq_text_iff (s ++ b']' ∷ []) t).0 e in
      absurd (not-NoBracket s (subst NoBracket (sym same) h))
  | inr e ↦ e
]

not_ending : (s t : Text) → NoBracket t → is_empty t ≡ false → ends_with (s ++ b']' ∷ []) t ≡ false
unfolding ends_with
not_ending [] t h k = rw (not_equal [] t h, k) refl
not_ending (c ∷ s) t h k = rw (not_equal (c ∷ s) t h, not_ending s t h k) refl

to_lower-bracketed : (s : Text) → to_lower (bracketed s) ≡ bracketed (to_lower s)
unfolding to_lower
to_lower-bracketed s = ap (λ t. b'[' ∷ t) (inner s)
  where
    inner : (s : Text) → to_lower (s ++ b']' ∷ []) ≡ to_lower s ++ b']' ∷ []
    inner [] = refl
    inner (c ∷ s) = ap (λ t. lower_code c ∷ t) (inner s)

localhost-NoBracket : NoBracket (codes ".localhost")
localhost-NoBracket = ground arith

ends-bracketed : (s : Text) → ends_with (bracketed s) (codes ".localhost") ≡ false
ends-bracketed s = not_ending (b'[' ∷ s) (codes ".localhost") localhost-NoBracket refl

private_of_other :
    (is_ip : Text → ℕ) (s value : Text)
    → to_lower s ≡ value
    → eq_text value (codes "localhost") ≡ false
    → ends_with value (codes ".localhost") ≡ false
    → eq_text value (codes "metadata.google.internal") ≡ false
    → is_ip value ≡ 0
    → is_private_network_host is_ip s ≡ false
unfolding is_private_network_host
private_of_other is_ip s value e h k l n = rw (e, h, k, l, n, is_private_network_host) refl

not_private :
    (is_ip : Text → ℕ) (s : Text)
    → is_ip (bracketed (to_lower s)) ≡ 0
    → is_private_network_host is_ip (bracketed s) ≡ false
not_private is_ip s e =
    private_of_other is_ip (bracketed s) (bracketed (to_lower s)) (to_lower-bracketed s)
      (not_equal (b'[' ∷ to_lower s) (codes "localhost") (ground arith))
      (ends-bracketed (to_lower s))
      (not_equal (b'[' ∷ to_lower s) (codes "metadata.google.internal") (ground arith)) e

-- The test for private networks does not see IPv6 addresses: a URL's host name holds such an address in
-- brackets, a text in brackets is no address to `isIP`, and so with no list of allowed hosts every URL
-- with such a host may be fetched, `http://[::1]/` too, without the permission for private networks.
pub validate-bracketed :
    (parse_url : Text → Option FetchUrl) (is_ip : Text → ℕ) (env : EgressEnv) (raw_url : Text)
    (parsed : FetchUrl) (address : Text)
    → parse_url raw_url ≡ some parsed
    → is_http parsed.protocol ≡ true
    → parsed.hostname ≡ bracketed address
    → ((s : Text) → is_ip (bracketed s) ≡ 0)
    → parse_host_allowlist (get_or_else env.allowed_hosts []) ≡ []
    → validate_authenticated_fetch_url parse_url is_ip env raw_url ≡ fetchable parsed
unfolding validate_authenticated_fetch_url
validate-bracketed parse_url is_ip env raw_url parsed address e http host no_ip open_list =
    let lower : to_lower parsed.hostname ≡ bracketed (to_lower address) =
      ap to_lower host ∙ to_lower-bracketed address in
    let passes = not_private is_ip (to_lower address) (no_ip (to_lower (to_lower address))) in
    elim (Bool-cases (env_flag env.allow_private_networks false)) [
      | inl f ↦ rw (e, http, lower, open_list, f, validate_authenticated_fetch_url) refl
      | inr f ↦ rw (e, http, lower, open_list, f, passes, validate_authenticated_fetch_url) refl
    ]
