-- ===== src/Signing/Timestamp.antt =====
-- The timestamp header: `Date.now().toString()` against `parseInt`.
use mathlib.Core.Path.{subst}
use self_agent_id.Base.{
  ap, ◌∙◌, inr, inl, ℕ, zero, suc, ◌+◌, ◌-◌, ◌*◌, ◌/◌, ◌%◌, ◌<◌, ◌≡◌, refl, true, false, none, some,
  [], ◌∷◌, Text, arith, print_nat, digits_from, is_digit, is_white, trim_start, ltb, Bool-cases,
  ◌==◌,
}
use mathlib.Core.Option
use self_agent_id.Base.Int.{pos}
use self_agent_id.Signing.{parse_int, parse_signed, parse_digits}

parse_digits-digits_from :
    (fuel n : ℕ) (out : Text)
    → n < fuel
    → parse_digits none (digits_from fuel n out) ≡ parse_digits (some n) out
unfolding digits_from parse_digits
parse_digits-digits_from zero n out h = absurd (omega arith)
parse_digits-digits_from (suc fuel) n out h = elim (Bool-cases (ltb n 10)) [
  | inl small ↦
      rw (small, digits_from)
        (let digit : is_digit (b'0' + n) ≡ true = ground arith in
          let value : 0 + (b'0' + n - b'0') ≡ n = omega arith in rw (digit, value) refl)
  | inr large ↦
      rw (large, digits_from)
        (let digit : is_digit (b'0' + n % 10) ≡ true = ground arith in
          let value : n / 10 * 10 + (b'0' + n % 10 - b'0') ≡ n = omega arith in
          rw (parse_digits-digits_from fuel (n / 10) ((b'0' + n % 10) ∷ out) (ground arith))
            (rw (digit, value) refl))
]

digits_from-starts :
    (fuel n : ℕ) (out : Text)
    → n < fuel
    → (c : ℕ) × (s : Text) × (digits_from fuel n out ≡ c ∷ s) × (is_digit c ≡ true)
unfolding digits_from
digits_from-starts zero n out h = absurd (omega arith)
digits_from-starts (suc fuel) n out h = elim (Bool-cases (ltb n 10)) [
  | inl small ↦ (b'0' + n, out, ground arith, ground arith)
  | inr large ↦
      let (c, s, e, d) = digits_from-starts fuel (n / 10) ((b'0' + n % 10) ∷ out) (ground arith) in
      (c, s, ground (arith), d)
]

parse_signed_of_digit :
    (c : ℕ) (s : Text)
    → is_digit c ≡ true
    → parse_signed (trim_start (c ∷ s)) ≡ Option.map pos (parse_digits none (c ∷ s))
unfolding parse_signed trim_start is_white
parse_signed_of_digit c s d =
    let visible : is_white c ≡ false = ground arith in
    let positive : (c == b'-') ≡ false = ground arith in
    let unsigned : (c == b'+') ≡ false = ground arith in rw (visible, positive, unsigned) refl

parse_signed_of_shape :
    (text : Text) (n c : ℕ) (s : Text)
    → text ≡ c ∷ s
    → is_digit c ≡ true
    → parse_digits none text ≡ some n
    → parse_signed (trim_start text) ≡ some (pos n)
parse_signed_of_shape text n c s e d h = rw e (
    parse_signed_of_digit c s d
    ∙ ap (Option.map pos) (subst (λ t. parse_digits none t ≡ some n) e h))

pub parse_int-print_nat : (n : ℕ) → parse_int (print_nat n) ≡ some (pos n)
unfolding parse_int print_nat parse_digits
parse_int-print_nat n =
    let (c, s, e, d) = digits_from-starts (suc n) n [] (omega arith) in
    parse_signed_of_shape (print_nat n) n c s e d
      (parse_digits-digits_from (suc n) n [] (omega arith))
