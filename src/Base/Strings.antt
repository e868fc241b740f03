-- ===== src/Base/Strings.antt =====
-- Text as the list of its UTF-16 code units, with the string methods that the source calls.
-- `toLowerCase` and `toUpperCase` act on the ASCII letters and leave all else alone.
use Prim.Native.Nat.{ℕ, zero, suc, ◌+◌, ◌-◌, ◌*◌, ◌<◌}
use Prim.Native.Char.{code}
use Prim.Native.String.{String}
use mathlib.Core.Path.{◌≡◌, refl}
use mathlib.Core.Logic.{◌↔◌}
use mathlib.Core.Bool.{Bool, true, false, ◌&&◌, ◌||◌}
use mathlib.Core.List.{List, [], ◌∷◌}
use native.Mathlib.Omega.{arith}
use self_agent_id.Base.Checks.{leb, ltb, ◌==◌, if◌then◌else◌, and_true}

abbrev pub Text : Type 0
Text = List ℕ

-- The code units of a literal of the source.
abbrev pub codes : String → Text
codes String.[] = []
codes (String.◌∷◌ c s) = code c ∷ codes s

-- `s === t`
unfoldable pub eq_text : Text → Text → Bool
eq_text [] [] = true
eq_text (a ∷ s) (b ∷ t) = (a == b) && eq_text s t
eq_text _ _ = false

eq_text_sound : (s t : Text) → eq_text s t ≡ true → s ≡ t
unfolding eq_text
eq_text_sound [] [] h = refl
eq_text_sound (a ∷ s) (b ∷ t) h =
    let (same, rest) = and_true (a == b) (eq_text s t) h in ground (arith, eq_text_sound s t rest)
eq_text_sound _ _ h = cc

pub eq_text_refl : (s : Text) → eq_text s s ≡ true
unfolding eq_text
eq_text_refl [] = refl
eq_text_refl (a ∷ s) = ground (arith, eq_text_refl s)

pub eq_text_iff : (s t : Text) → (eq_text s t ≡ true) ↔ (s ≡ t)
eq_text_iff s t = (eq_text_sound s t, λ e. rw e (eq_text_refl t))

-- `s.startsWith(prefix)`
unfoldable pub starts_with : Text → Text → Bool
starts_with s [] = true
starts_with [] (b ∷ t) = false
starts_with (a ∷ s) (b ∷ t) = (a == b) && starts_with s t

-- `s.includes(part)`
unfoldable pub includes : Text → Text → Bool
unfolding starts_with
includes [] part = starts_with [] part
includes (a ∷ s) part = starts_with (a ∷ s) part || includes s part

abbrev pub is_upper : ℕ → Bool
is_upper c = leb b'A' c && leb c b'Z'

abbrev pub is_lower : ℕ → Bool
is_lower c = leb b'a' c && leb c b'z'

abbrev pub is_digit : ℕ → Bool
is_digit c = leb b'0' c && leb c b'9'

abbrev pub lower_code : ℕ → ℕ
lower_code c = if is_upper c then c + 32 else c

abbrev pub upper_code : ℕ → ℕ
upper_code c = if is_lower c then c - 32 else c

-- `s.toLowerCase()`
unfoldable pub to_lower : Text → Text
to_lower [] = []
to_lower (c ∷ s) = lower_code c ∷ to_lower s

-- `s.toUpperCase()`
unfoldable pub to_upper : Text → Text
to_upper [] = []
to_upper (c ∷ s) = upper_code c ∷ to_upper s

-- The white space that `parseInt` and `trim` skip.
unfoldable pub is_white : ℕ → Bool
is_white c =
    (leb 9 c && leb c 13)
    || (c == 32)
    || (c == 160)
    || (c == 5760)
    || (leb 8192 c && leb c 8202)
    || (c == 8232)
    || (c == 8233)
    || (c == 8239)
    || (c == 8287)
    || (c == 12288)
    || (c == 65279)

unfoldable pub trim_start : Text → Text
trim_start [] = []
trim_start (c ∷ s) = if is_white c then trim_start s else c ∷ s

trim_end : Text → Text
trim_end [] = []
trim_end (c ∷ s) =
    let rest = trim_end s in
    if is_white c then (elim rest [ [] ↦ [] | d ∷ t ↦ c ∷ d ∷ t ]) else c ∷ rest

-- `s.trim()`
unfoldable pub trim : Text → Text
unfolding trim_start trim_end
trim s = trim_end (trim_start s)

-- A character in front of the first part of a text that is split.
abbrev pub onto_first : ℕ → List Text → List Text
onto_first c [] = (c ∷ []) ∷ []
onto_first c (part ∷ parts) = (c ∷ part) ∷ parts

-- `s.split(separator)` for a separator of one character; there is always a first part.
unfoldable pub split_on : ℕ → Text → List Text
split_on separator [] = [] ∷ []
split_on separator (c ∷ s) =
    let parts = split_on separator s in if c == separator then [] ∷ parts else onto_first c parts

-- The digits of a number, most significant first, without a leading zero.
unfoldable pub digits_from : ℕ → ℕ → Text → Text
digits_from zero n out = out
digits_from (suc fuel) n out =
    let more =
      digits_from fuel (Prim.Native.Nat.◌/◌ n 10) ((b'0' + Prim.Native.Nat.◌%◌ n 10) ∷ out) in
    if ltb n 10 then (b'0' + n) ∷ out else more

-- `${n}` for a natural number: each round divides by ten, so `n + 1` rounds are enough.
unfoldable pub print_nat : ℕ → Text
unfolding digits_from
print_nat n = digits_from (suc n) n []
