-- ===== src/AgentCard/Slugs.antt =====
-- Slugs: what `slugify` makes of a text.
use mathlib.Core.Path.{subst}
use self_agent_id.Base.{
  ℕ, ◌≡◌, refl, ap, sym, ◌∙◌, Bool, true, false, [], ◌∷◌, Text, ◌==◌, ◌&&◌, ◌||◌, arith, lower_code,
  to_lower, Bool-cases, inl, inr, All,
}
use self_agent_id.AgentCard.{is_slug_code, hyphenate, strip_first, strip_last, slugify}

abbrev pub is_hyphen : ℕ → Bool
is_hyphen c = c == b'-'

-- No hyphen stands next to another.
abbrev pub Spaced : Text → Type 0
Spaced [] = Unit
Spaced (c ∷ []) = Unit
Spaced (c ∷ d ∷ s) = ((is_hyphen c && is_hyphen d) ≡ false) × Spaced (d ∷ s)

abbrev pub first_is_hyphen : Text → Bool
first_is_hyphen [] = false
first_is_hyphen (c ∷ s) = is_hyphen c

abbrev pub last_is_hyphen : Text → Bool
last_is_hyphen [] = false
last_is_hyphen (c ∷ []) = is_hyphen c
last_is_hyphen (c ∷ d ∷ s) = last_is_hyphen (d ∷ s)

abbrev pub IsSlugText : Text → Type 0
IsSlugText s = All (λ c. (is_slug_code c || is_hyphen c) ≡ true) s × Spaced s

-- Lower-case letters, digits and single hyphens between them.
pub record IsSlug (s : Text) : Type 0 where
  pub text : IsSlugText s
  pub starts : first_is_hyphen s ≡ false
  pub ends : last_is_hyphen s ≡ false

Spaced-cons :
    (c : ℕ) (s : Text) → (is_hyphen c && first_is_hyphen s) ≡ false → Spaced s → Spaced (c ∷ s)
Spaced-cons c [] h k = tt
Spaced-cons c (d ∷ s) h k = (h, k)

hyphenate-code :
    (b : Bool) (c : ℕ) (s : Text)
    → is_slug_code c ≡ true
    → hyphenate b (c ∷ s) ≡ c ∷ hyphenate false s
unfolding hyphenate
hyphenate-code b c s h = rw (h, hyphenate) refl

hyphenate-run :
    (c : ℕ) (s : Text) → is_slug_code c ≡ false → hyphenate true (c ∷ s) ≡ hyphenate true s
unfolding hyphenate
hyphenate-run c s h = rw (h, hyphenate) refl

hyphenate-start :
    (c : ℕ) (s : Text) → is_slug_code c ≡ false → hyphenate false (c ∷ s) ≡ b'-' ∷ hyphenate true s
unfolding hyphenate
hyphenate-start c s h = rw (h, hyphenate) refl

code_not_hyphen : (c : ℕ) → is_slug_code c ≡ true → is_hyphen c ≡ false
code_not_hyphen c h = ground arith

-- Within a run the text does not begin with a hyphen.
abbrev Hyphenated : Bool → Text → Type 0
Hyphenated b t = IsSlugText t × ((b && first_is_hyphen t) ≡ false)

Hyphenated-code :
    (b : Bool) (c : ℕ) (t : Text) → is_slug_code c ≡ true → IsSlugText t → Hyphenated b (c ∷ t)
Hyphenated-code b c t h (codes_ok, spaced) =
    let e = code_not_hyphen c h in
    (((ground arith, codes_ok), Spaced-cons c t (rw e refl) spaced), ground arith)

hyphenate-Hyphenated : (b : Bool) (s : Text) → Hyphenated b (hyphenate b s)
unfolding hyphenate
hyphenate-Hyphenated true [] = ((tt, tt), refl)
hyphenate-Hyphenated false [] = ((tt, tt), refl)
hyphenate-Hyphenated true (c ∷ s) = elim (Bool-cases (is_slug_code c)) [
  | inl h ↦
      subst (Hyphenated true) (sym (hyphenate-code true c s h))
        (Hyphenated-code true c (hyphenate false s) h (hyphenate-Hyphenated false s).0)
  | inr h ↦ subst (Hyphenated true) (sym (hyphenate-run c s h)) (hyphenate-Hyphenated true s)
]
hyphenate-Hyphenated false (c ∷ s) = elim (Bool-cases (is_slug_code c)) [
  | inl h ↦
      subst (Hyphenated false) (sym (hyphenate-code false c s h))
        (Hyphenated-code false c (hyphenate false s) h (hyphenate-Hyphenated false s).0)
  | inr h ↦
      let ((codes_ok, spaced), first) = hyphenate-Hyphenated true s in
      subst (Hyphenated false) (sym (hyphenate-start c s h))
        (((refl, codes_ok), Spaced-cons b'-' (hyphenate true s) first spaced), refl)
]

strip_first_lem :
    (s : Text)
    → IsSlugText s
    → IsSlugText (strip_first s) × (first_is_hyphen (strip_first s) ≡ false)
strip_first_lem [] h = (h, refl)
strip_first_lem (c ∷ []) h = ground arith
strip_first_lem (c ∷ d ∷ s) ((this, rest), (apart, spaced)) = ground arith

strip_last_text : (s : Text) → IsSlugText s → IsSlugText (strip_last s)
strip_last_text [] h = h
strip_last_text (c ∷ []) h = ground arith
strip_last_text (c ∷ d ∷ []) h = ground arith
strip_last_text (c ∷ d ∷ e ∷ s) ((this, rest), (apart, spaced)) =
    let (codes_ok, spaced_on) = strip_last_text (d ∷ e ∷ s) (rest, spaced) in
    ((this, codes_ok), Spaced-cons c (strip_last (d ∷ e ∷ s)) apart spaced_on)

strip_last_first : (s : Text) → first_is_hyphen s ≡ false → first_is_hyphen (strip_last s) ≡ false
strip_last_first [] h = h
strip_last_first (c ∷ []) h = ground arith
strip_last_first (c ∷ d ∷ s) h = h

strip_last_last : (s : Text) → Spaced s → last_is_hyphen (strip_last s) ≡ false
strip_last_last [] h = refl
strip_last_last (c ∷ []) h = ground arith
strip_last_last (c ∷ d ∷ []) (apart, spaced) = ground arith
strip_last_last (c ∷ d ∷ e ∷ s) (apart, spaced) = strip_last_last (d ∷ e ∷ s) spaced

Spaced-first : (c : ℕ) (s : Text) → Spaced (c ∷ s) → (is_hyphen c && first_is_hyphen s) ≡ false
Spaced-first c [] h = ground arith
Spaced-first c (d ∷ s) (apart, spaced) = apart

Spaced-tail : (c : ℕ) (s : Text) → Spaced (c ∷ s) → Spaced s
Spaced-tail c [] h = tt
Spaced-tail c (d ∷ s) (apart, spaced) = spaced

-- A text that is hyphenated already is left alone.
hyphenate_fixed : (b : Bool) (t : Text) → Hyphenated b t → hyphenate b t ≡ t
unfolding hyphenate
hyphenate_fixed b [] h = refl
hyphenate_fixed b (c ∷ s) (((this, codes_ok), spaced), first) = elim (Bool-cases (is_slug_code c)) [
  | inl h ↦
      hyphenate-code b c s h
      ∙ ap (λ t. c ∷ t) (hyphenate_fixed false s ((codes_ok, Spaced-tail c s spaced), refl))
  | inr h ↦
      let hyphen : is_hyphen c ≡ true = ground arith in
      let same : b'-' ≡ c = ground arith in
      let start : b ≡ false = ground arith in
      let next : first_is_hyphen s ≡ false = ground (arith, Spaced-first c s spaced) in
      ap (λ r. hyphenate r (c ∷ s)) start
      ∙ (hyphenate-start c s h
          ∙ (ap (λ t. b'-' ∷ t) (hyphenate_fixed true s ((codes_ok, Spaced-tail c s spaced), next))
              ∙ ap (λ d. d ∷ s) same))
]

to_lower_fixed : (s : Text) → All (λ c. (is_slug_code c || is_hyphen c) ≡ true) s → to_lower s ≡ s
unfolding to_lower
to_lower_fixed [] h = refl
to_lower_fixed (c ∷ s) (this, h) =
    let same : lower_code c ≡ c = ground arith in rw (same, to_lower_fixed s h) refl

strip_first_fixed : (s : Text) → first_is_hyphen s ≡ false → strip_first s ≡ s
strip_first_fixed [] h = refl
strip_first_fixed (c ∷ s) h = rw h refl

strip_last_fixed : (s : Text) → last_is_hyphen s ≡ false → strip_last s ≡ s
strip_last_fixed [] h = refl
strip_last_fixed (c ∷ []) h = rw h refl
strip_last_fixed (c ∷ d ∷ s) h = ap (λ t. c ∷ t) (strip_last_fixed (d ∷ s) h)

slugify_fixed : (s : Text) → IsSlug s → slugify s ≡ s
unfolding slugify
slugify_fixed s slug =
    ap (λ t. strip_last (strip_first (hyphenate false t))) (to_lower_fixed s slug.text.0)
    ∙ (ap (λ t. strip_last (strip_first t)) (hyphenate_fixed false s (slug.text, refl))
        ∙ (ap strip_last (strip_first_fixed s slug.starts) ∙ strip_last_fixed s slug.ends))

pub IsSlug-slugify : (s : Text) → IsSlug (slugify s)
unfolding slugify
IsSlug-slugify s =
    let (text, start) = hyphenate-Hyphenated false (to_lower s) in
    let (stripped, starts) = strip_first_lem (hyphenate false (to_lower s)) text in
    record {
      text = strip_last_text (strip_first (hyphenate false (to_lower s))) stripped;
      starts = strip_last_first (strip_first (hyphenate false (to_lower s))) starts;
      ends = strip_last_last (strip_first (hyphenate false (to_lower s))) stripped.1;
    }

-- A slug is made of lower-case letters, digits and single hyphens, none of them first or last, whatever
-- the text; and a text of this form is its own slug, so that a second `slugify` changes nothing.
pub slugify-IsSlug : (s : Text) → IsSlug (slugify s) × (slugify (slugify s) ≡ slugify s)
slugify-IsSlug s = (IsSlug-slugify s, slugify_fixed (slugify s) (IsSlug-slugify s))
