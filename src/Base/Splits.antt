-- ===== src/Base/Splits.antt =====
-- How a text is split at a character.
use Prim.Native.Nat.{ℕ}
use mathlib.Core.Path.{◌≡◌, refl}
use mathlib.Core.Bool.{false}
use mathlib.Core.List.{[], ◌∷◌, ◌++◌}
use self_agent_id.Base.Checks.{◌==◌, ==_iff}
use self_agent_id.Base.Lists.{All}
use self_agent_id.Base.Strings.{Text, split_on}

pub split_on_last : (c : ℕ) (s : Text) → All (λ d. (d == c) ≡ false) s → split_on c s ≡ s ∷ []
unfolding split_on
split_on_last c [] h = refl
split_on_last c (d ∷ s) (other, h) = rw (other, split_on_last c s h) refl

pub split_on-append :
    (c : ℕ) (s t : Text)
    → All (λ d. (d == c) ≡ false) s
    → split_on c (s ++ c ∷ t) ≡ s ∷ split_on c t
unfolding split_on
split_on-append c [] t h = rw ((==_iff c c).1 refl) refl
split_on-append c (d ∷ s) t (other, h) = rw (other, split_on-append c s t h) refl
