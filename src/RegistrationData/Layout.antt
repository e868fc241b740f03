-- ===== src/RegistrationData/Layout.antt =====
-- Where the fields of the ASCII data stand, for the contract that reads them at fixed offsets.
use mathlib.Core.Path.{subst}
use self_agent_id.Base.{
  digits_from, print_nat, length-drop, suc, append-nil, ℕ, suc, ◌+◌, ◌≡◌, refl, ap, ◌∙◌, Bool, true,
  false, some, [], ◌∷◌, ◌++◌, Text, length, take, drop, take-append, drop-append, length-append,
  arith, get_or_else, to_lower,
}
use self_agent_id.RegistrationData.{
  RegistrationDisclosures, MinimumAge, no_minimum, eighteen, twenty_one, index_of, to_config_index,
  config_digit, hex_part,
}

-- `text.slice(start, start + size)`
abbrev pub slice : ℕ → ℕ → Text → Text
slice start size text = take size (drop start text)

take_exact : (n : ℕ) (xs ys : Text) → length xs ≡ n → take n (xs ++ ys) ≡ xs
take_exact n xs ys h = subst (λ m. take m (xs ++ ys) ≡ xs) h (take-append xs ys)

drop_exact : (n : ℕ) (xs ys : Text) → length xs ≡ n → drop n (xs ++ ys) ≡ ys
drop_exact n xs ys h = subst (λ m. drop m (xs ++ ys) ≡ ys) h (drop-append xs ys)

take_all : (n : ℕ) (xs : Text) → length xs ≡ n → take n xs ≡ xs
take_all n xs h = subst (λ ys. take n ys ≡ xs) (append-nil xs) (take_exact n xs [] h)

length-to_lower : (s : Text) → length (to_lower s) ≡ length s
unfolding to_lower
length-to_lower [] = refl
length-to_lower (c ∷ s) = ap suc (length-to_lower s)

pub length-hex_part : (n : ℕ) (hex : Text) → length hex ≡ n + 2 → length (hex_part hex) ≡ n
length-hex_part n hex h = omega (arith, length-to_lower (drop 2 hex), length-drop 2 hex)

drop_skip : (k : ℕ) (xs ys : Text) → drop (length xs + k) (xs ++ ys) ≡ drop k ys
drop_skip k [] ys = let e : 0 + k ≡ k = omega arith in ap (λ n. drop n ys) e
drop_skip k (x ∷ xs) ys =
    let e : suc (length xs) + k ≡ suc (length xs + k) = omega arith in
    ap (λ n. drop n (x ∷ (xs ++ ys))) e ∙ drop_skip k xs ys

slice_skip :
    (n k size : ℕ) (xs ys : Text) → length xs ≡ n → slice (n + k) size (xs ++ ys) ≡ slice k size ys
slice_skip n k size xs ys h =
    subst (λ m. slice (m + k) size (xs ++ ys) ≡ slice k size ys) h
      (ap (take size) (drop_skip k xs ys))

-- The index is one digit, and tells the disclosures.
pub digit_of_index :
    (m : MinimumAge) (b : Bool) → config_digit (index_of m b) ≡ some ((b'0' + index_of m b) ∷ [])
unfolding config_digit print_nat digits_from
digit_of_index no_minimum true = refl
digit_of_index no_minimum false = refl
digit_of_index eighteen true = refl
digit_of_index eighteen false = refl
digit_of_index twenty_one true = refl
digit_of_index twenty_one false = refl

pub config_digit_lem :
    (disclosures : RegistrationDisclosures)
    → config_digit (to_config_index disclosures) ≡ some ((b'0' + to_config_index disclosures) ∷ [])
unfolding to_config_index
config_digit_lem disclosures =
    digit_of_index (get_or_else disclosures.minimum_age no_minimum)
      (get_or_else disclosures.ofac false)

-- The slices of the joined text.
module _ (c d : ℕ) (a g r s v : Text) (la : length a ≡ 40) (lg : length g ≡ 40) (lr : length r ≡ 64)
    (ls : length s ≡ 64) (lv : length v ≡ 2) where
  pub joined_total : length (c ∷ d ∷ (a ++ (g ++ (r ++ (s ++ v))))) ≡ 212
  joined_total = omega (
    arith,
    length-append a (g ++ (r ++ (s ++ v))),
    length-append g (r ++ (s ++ v)),
    length-append r (s ++ v),
    length-append s v,
  )

  pub joined_agent : slice 2 40 (c ∷ d ∷ (a ++ (g ++ (r ++ (s ++ v))))) ≡ a
  joined_agent = take_exact 40 a (g ++ (r ++ (s ++ v))) la

  pub joined_guardian : slice 42 40 (c ∷ d ∷ (a ++ (g ++ (r ++ (s ++ v))))) ≡ g
  joined_guardian =
      slice_skip 40 0 40 a (g ++ (r ++ (s ++ v))) la ∙ take_exact 40 g (r ++ (s ++ v)) lg

  pub joined_r : slice 82 64 (c ∷ d ∷ (a ++ (g ++ (r ++ (s ++ v))))) ≡ r
  joined_r =
      slice_skip 40 40 64 a (g ++ (r ++ (s ++ v))) la
      ∙ (slice_skip 40 0 64 g (r ++ (s ++ v)) lg ∙ take_exact 64 r (s ++ v) lr)

  pub joined_s : slice 146 64 (c ∷ d ∷ (a ++ (g ++ (r ++ (s ++ v))))) ≡ s
  joined_s =
      slice_skip 40 104 64 a (g ++ (r ++ (s ++ v))) la
      ∙ (slice_skip 40 64 64 g (r ++ (s ++ v)) lg
          ∙ (slice_skip 64 0 64 r (s ++ v) lr ∙ take_exact 64 s v ls))

  pub joined_v : slice 210 2 (c ∷ d ∷ (a ++ (g ++ (r ++ (s ++ v))))) ≡ v
  joined_v =
      slice_skip 40 168 2 a (g ++ (r ++ (s ++ v))) la
      ∙ (slice_skip 40 128 2 g (r ++ (s ++ v)) lg
          ∙ (slice_skip 64 64 2 r (s ++ v) lr ∙ (slice_skip 64 0 2 s v ls ∙ take_all 2 v lv)))
