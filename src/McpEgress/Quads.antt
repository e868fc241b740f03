-- ===== src/McpEgress/Quads.antt =====
-- IPv4 addresses in dotted decimal against the test for private networks.
use mathlib.Core.Path.{subst}
use self_agent_id.Base.{
  get_or_else, ℕ, zero, suc, ◌+◌, ◌*◌, ◌/◌, ◌%◌, ◌≤◌, ◌<◌, ◌≡◌, ◌↔◌, ◌⊎◌, inl, inr, refl, ap, ◌∙◌,
  true, false, Option, some, [], ◌∷◌, ◌++◌, map, Text, codes, eq_text, eq_text_iff, to_lower,
  lower_code, is_digit, split_on, split_on_last, split_on-append, print_nat, digits_from, All,
  All-append, arith, ◌==◌, ltb, Bool-cases, ◌||◌, get_or_else,
}
use self_agent_id.Base.Int.{pos}
use self_agent_id.Signing.{parse_int}
use self_agent_id.Signing.Timestamp.{parse_int-print_nat}
use self_agent_id.McpEgress.{
  fetchable, private_target, env_flag, parse_host_allowlist, is_http, EgressEnv, FetchUrl,
  validate_authenticated_fetch_url, ends_with, EgressEnv, FetchUrl, is_private_pair, private_parts,
  is_ipv4_private, is_private_network_host,
}

-- `a.b.c.d`
abbrev pub quad : ℕ → ℕ → ℕ → ℕ → Text
quad a b c d =
    print_nat a ++ (b'.' ∷ (print_nat b ++ (b'.' ∷ (print_nat c ++ (b'.' ∷ print_nat d)))))

-- The address as a number of 32 bits.
abbrev pub address_of : ℕ → ℕ → ℕ → ℕ → ℕ
address_of a b c d = ((a * 256 + b) * 256 + c) * 256 + d

abbrev pub InBlock : ℕ → ℕ → ℕ → Type 0
InBlock first size n = (first ≤ n) × (n < first + size)

-- The blocks 0/8, 10/8, 127/8, 169.254/16, 172.16/12 and 192.168/16.
abbrev pub IsPrivate : ℕ → Type 0
IsPrivate n =
    InBlock 0 16777216 n
    ⊎ InBlock 167772160 16777216 n
    ⊎ InBlock 2130706432 16777216 n
    ⊎ InBlock 2851995648 65536 n
    ⊎ InBlock 2886729728 1048576 n
    ⊎ InBlock 3232235520 65536 n

-- The same by the first two numbers.
abbrev PrivatePair : ℕ → ℕ → Type 0
PrivatePair a b =
    (a ≡ 10)
    ⊎ (a ≡ 127)
    ⊎ (a ≡ 0)
    ⊎ ((a ≡ 169) × (b ≡ 254))
    ⊎ ((a ≡ 172) × (16 ≤ b) × (b ≤ 31))
    ⊎ ((a ≡ 192) × (b ≡ 168))

is_private_pair_iff : (a b : ℕ) → (is_private_pair (pos a) (pos b) ≡ true) ↔ PrivatePair a b
is_private_pair_iff a b = ground arith

module _ (a b c d : ℕ) (hb : b < 256) (hc : c < 256) (hd : d < 256) where
  block_of_pair : PrivatePair a b → IsPrivate (address_of a b c d)
  block_of_pair (inl e) = inr (inl (omega arith, omega arith))
  block_of_pair (inr (inl e)) = inr (inr (inl (omega arith, omega arith)))
  block_of_pair (inr (inr (inl e))) = inl (omega arith, omega arith)
  block_of_pair (inr (inr (inr (inl (e, f))))) = inr (inr (inr (inl (omega arith, omega arith))))
  block_of_pair (inr (inr (inr (inr (inl (e, f, g)))))) =
      inr (inr (inr (inr (inl (omega arith, omega arith)))))
  block_of_pair (inr (inr (inr (inr (inr (e, f)))))) =
      inr (inr (inr (inr (inr (omega arith, omega arith)))))

  pair_of_block : IsPrivate (address_of a b c d) → PrivatePair a b
  pair_of_block (inl (e, f)) = inr (inr (inl (omega arith)))
  pair_of_block (inr (inl (e, f))) = inl (omega arith)
  pair_of_block (inr (inr (inl (e, f)))) = inr (inl (omega arith))
  pair_of_block (inr (inr (inr (inl (e, f))))) = inr (inr (inr (inl (omega arith, omega arith))))
  pair_of_block (inr (inr (inr (inr (inl (e, f)))))) =
      inr (inr (inr (inr (inl (omega arith, omega arith, omega arith)))))
  pair_of_block (inr (inr (inr (inr (inr (e, f)))))) =
      inr (inr (inr (inr (inr (omega arith, omega arith)))))

digits-digits_from :
    (fuel n : ℕ) (out : Text)
    → n < fuel
    → All (λ c. is_digit c ≡ true) out
    → All (λ c. is_digit c ≡ true) (digits_from fuel n out)
unfolding digits_from
digits-digits_from zero n out h k = absurd (omega arith)
digits-digits_from (suc fuel) n out h k = elim (Bool-cases (ltb n 10)) [
  | inl small ↦ rw (small, digits_from) (ground arith, k)
  | inr large ↦
      rw (large, digits_from)
        (digits-digits_from fuel (n / 10) ((b'0' + n % 10) ∷ out) (ground arith) (ground arith, k))
]

digits-print_nat : (n : ℕ) → All (λ c. is_digit c ≡ true) (print_nat n)
unfolding print_nat
digits-print_nat n = digits-digits_from (suc n) n [] (omega arith) tt

no_dot : (s : Text) → All (λ c. is_digit c ≡ true) s → All (λ c. (c == b'.') ≡ false) s
no_dot [] h = tt
no_dot (c ∷ s) (d, h) = (ground arith, no_dot s h)

parts_of_quad :
    (a b c d : ℕ)
    → split_on b'.' (quad a b c d) ≡ print_nat a ∷ print_nat b ∷ print_nat c ∷ print_nat d ∷ []
parts_of_quad a b c d =
    let last = split_on_last b'.' (print_nat d) (no_dot (print_nat d) (digits-print_nat d)) in
    let third =
      split_on-append b'.' (print_nat c) (print_nat d)
        (no_dot (print_nat c) (digits-print_nat c)) in
    let second =
      split_on-append b'.' (print_nat b) (print_nat c ++ (b'.' ∷ print_nat d))
        (no_dot (print_nat b) (digits-print_nat b)) in
    let first =
      split_on-append b'.' (print_nat a)
        (print_nat b ++ (b'.' ∷ (print_nat c ++ (b'.' ∷ print_nat d))))
        (no_dot (print_nat a) (digits-print_nat a)) in
    rw (first, second, third, last) refl

is_ipv4_private-quad :
    (a b c d : ℕ) → is_ipv4_private (quad a b c d) ≡ is_private_pair (pos a) (pos b)
unfolding is_ipv4_private
is_ipv4_private-quad a b c d =
    ap (λ p. private_parts (map parse_int p)) (parts_of_quad a b c d)
    ∙ rw
        (
          parse_int-print_nat a,
          parse_int-print_nat b,
          parse_int-print_nat c,
          parse_int-print_nat d,
          private_parts,
        )
        refl

-- Digits and dots, of which no name and no letter is made.
abbrev IsDotted : Text → Type 0
IsDotted s = All (λ c. (is_digit c || (c == b'.')) ≡ true) s

IsDotted-if_digits : (s : Text) → All (λ c. is_digit c ≡ true) s → IsDotted s
IsDotted-if_digits [] h = tt
IsDotted-if_digits (c ∷ s) (d, h) = (rw d refl, IsDotted-if_digits s h)

IsDotted-dot : (s t : Text) → All (λ c. is_digit c ≡ true) s → IsDotted t → IsDotted (s ++ b'.' ∷ t)
IsDotted-dot s t h k = All-append _ s (b'.' ∷ t) (IsDotted-if_digits s h) (refl, k)

quad-IsDotted : (a b c d : ℕ) → IsDotted (quad a b c d)
quad-IsDotted a b c d = IsDotted-dot (print_nat a) _ (digits-print_nat a) (
    IsDotted-dot (print_nat b) _ (digits-print_nat b) (
      IsDotted-dot (print_nat c) _ (digits-print_nat c)
        (IsDotted-if_digits (print_nat d) (digits-print_nat d))))

to_lower-IsDotted : (s : Text) → IsDotted s → to_lower s ≡ s
unfolding to_lower
to_lower-IsDotted [] h = refl
to_lower-IsDotted (c ∷ s) (d, h) =
    let same : lower_code c ≡ c = ground arith in rw (same, to_lower-IsDotted s h) refl

not_equal : (s t : Text) → IsDotted s → ¬ IsDotted t → eq_text s t ≡ false
not_equal s t h k = elim (Bool-cases (eq_text s t)) [
  | inl e ↦ absurd (k (subst IsDotted ((eq_text_iff s t).0 e) h))
  | inr e ↦ e
]

not_ending : (s t : Text) → IsDotted s → ¬ IsDotted t → ends_with s t ≡ false
unfolding ends_with
not_ending [] [] h k = absurd (k tt)
not_ending [] (c ∷ t) h k = refl
not_ending (c ∷ s) t (d, h) k = rw (not_equal (c ∷ s) t (d, h) k) (not_ending s t h k)

private_of_dotted :
    (is_ip : Text → ℕ) (s : Text)
    → IsDotted s
    → is_ip s ≡ 4
    → is_private_network_host is_ip s ≡ is_ipv4_private s
unfolding is_private_network_host
private_of_dotted is_ip s h e =
    rw
      (
        to_lower-IsDotted s h,
        not_equal s (codes "localhost") h (λ (l, rest). cc),
        not_ending s (codes ".localhost") h (λ (dot, (l, rest)). cc),
        not_equal s (codes "metadata.google.internal") h (λ (m, rest). cc),
        e,
        is_private_network_host,
      )
      refl

-- A caller's address whose host is an IPv4 address in dotted decimal, with no list of allowed hosts and
-- without the permission for private networks, is refused exactly where the address lies in one of the
-- blocks 0/8, 10/8, 127/8, 169.254/16, 172.16/12 and 192.168/16, and may be fetched otherwise.
pub validate-quad :
    (parse_url : Text → Option FetchUrl) (is_ip : Text → ℕ) (env : EgressEnv) (raw_url : Text)
    (parsed : FetchUrl) (a b c d : ℕ)
    → parse_url raw_url ≡ some parsed
    → is_http parsed.protocol ≡ true
    → parsed.hostname ≡ quad a b c d
    → is_ip (quad a b c d) ≡ 4
    → b < 256
    → c < 256
    → d < 256
    → parse_host_allowlist (get_or_else env.allowed_hosts []) ≡ []
    → env_flag env.allow_private_networks false ≡ false
    → ((validate_authenticated_fetch_url parse_url is_ip env raw_url
          ≡ private_target (quad a b c d))
        × IsPrivate (address_of a b c d))
      ⊎ ((validate_authenticated_fetch_url parse_url is_ip env raw_url ≡ fetchable parsed)
          × (¬ IsPrivate (address_of a b c d)))
unfolding validate_authenticated_fetch_url
validate-quad parse_url is_ip env raw_url parsed a b c d e http host four hb hc hd open_list
      strict =
    let dotted = quad-IsDotted a b c d in
    let lower : to_lower parsed.hostname ≡ quad a b c d =
      ap to_lower host ∙ to_lower-IsDotted (quad a b c d) dotted in
    let tested : is_private_network_host is_ip (quad a b c d) ≡ is_private_pair (pos a) (pos b) =
      private_of_dotted is_ip (quad a b c d) dotted four ∙ is_ipv4_private-quad a b c d in
    elim (Bool-cases (is_private_pair (pos a) (pos b))) [
      | inl p ↦ inl (
        rw (e, http, lower, open_list, strict, tested ∙ p, validate_authenticated_fetch_url) refl,
        block_of_pair a b c d hb hc hd ((is_private_pair_iff a b).0 p),
      )
      | inr p ↦ inr (
        rw (e, http, lower, open_list, strict, tested ∙ p, validate_authenticated_fetch_url) refl,
        λ private.
            let q = (is_private_pair_iff a b).1 (pair_of_block a b c d hb hc hd private) in cc,
      )
    ]
