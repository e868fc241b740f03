-- ===== src/Base/Int.antt =====
-- Signed integers over the native numbers: `negsuc n` is -(n + 1).
use Prim.Native.Nat.{ℕ, suc, ◌+◌, ◌-◌, ◌/◌}
use self_agent_id.Base.Checks.{leb, if◌then◌else◌}

pub data ℤ : Type 0 where
  pos : ℕ → ℤ
  negsuc : ℕ → ℤ

-- a - b, as an integer.
abbrev pub sub_ℕ : ℕ → ℕ → ℤ
sub_ℕ a b = if leb b a then pos (a - b) else negsuc (b - a - 1)

-- `Math.floor((a - b) / d)` for natural numbers, `d` positive.
unfoldable pub floor_div : ℕ → ℕ → ℕ → ℤ
floor_div a b d = if leb b a then pos ((a - b) / d) else negsuc ((b - a - 1) / d)

-- `Math.abs(n - t)` for a natural number `n`.
unfoldable pub abs_diff : ℕ → ℤ → ℕ
abs_diff n (pos t) = if leb t n then n - t else t - n
abs_diff n (negsuc t) = n + suc t

-- `t + a` for a natural number `a`; exact where the sum is not negative, and 0 below.
unfoldable pub add_ℕ : ℤ → ℕ → ℕ
add_ℕ (pos t) a = t + a
add_ℕ (negsuc t) a = a - suc t
