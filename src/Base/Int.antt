-- ===== src/Base/Int.antt =====
-- Signed integers over the native numbers, and the wrap-around of an i64.
use Prim.Native.Nat.{ℕ, suc, ◌+◌, ◌-◌, ◌%◌, ◌^◌}
use mathlib.Core.Path.{◌≡◌, refl}
use tokendog.Base.Tests.{leb, ltb, if◌then◌else◌}

-- `negsuc n` is -(n + 1).
pub data ℤ : Type 0 where
  pos : ℕ → ℤ
  negsuc : ℕ → ℤ

-- `a - b`.
abbrev pub difference : ℕ → ℕ → ℤ
difference a b = if leb b a then pos (a - b) else negsuc (b - a - 1)

infixl 65 ◌+ℤ◌
abbrev pub ◌+ℤ◌ : ℤ → ℤ → ℤ
pos a +ℤ pos b = pos (a + b)
pos a +ℤ negsuc b = difference a (suc b)
negsuc a +ℤ pos b = difference b (suc a)
negsuc a +ℤ negsuc b = negsuc (suc (a + b))

-- The i64 that equals an integer modulo 2 ^ 64.
abbrev signed : ℕ → ℤ
signed n = if ltb n (2 ^ 63) then pos n else negsuc (2 ^ 64 - 1 - n)

abbrev pub wrap_i64 : ℤ → ℤ
wrap_i64 (pos n) = signed (n % 2 ^ 64)
wrap_i64 (negsuc n) = signed (2 ^ 64 - 1 - n % 2 ^ 64)

wrapped_sum : wrap_i64 (pos (2 ^ 63 - 1) +ℤ pos 1) ≡ negsuc (2 ^ 63 - 1)
wrapped_sum = refl

plain_sum : wrap_i64 (negsuc 4 +ℤ pos 2) ≡ negsuc 2
plain_sum = refl
