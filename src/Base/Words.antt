-- ===== src/Base/Words.antt =====
-- usize and u64: numbers below 2 ^ 64 with the wrap-around written out.
use Prim.Native.Nat.{ℕ, ◌+◌, ◌-◌, ◌*◌, ◌%◌, ◌<◌}
use mathlib.Core.Path.{◌≡◌}
use native.Mathlib.Omega.{arith}

abbrev pub word_mod : ℕ
word_mod = 0x1_0000_0000_0000_0000

-- `AtomicUsize::fetch_add(1)` and `fetch_sub(1)` wrap.
abbrev pub wrapping_inc : ℕ → ℕ
wrapping_inc x = (x + 1) % word_mod

abbrev pub wrapping_dec : ℕ → ℕ
wrapping_dec x = (x + word_mod - 1) % word_mod

abbrev pub wrapping_mul : ℕ → ℕ → ℕ
wrapping_mul a b = (a * b) % word_mod

pub wrapping_dec-wrapping_inc : (x : ℕ) → x < word_mod → wrapping_dec (wrapping_inc x) ≡ x
wrapping_dec-wrapping_inc x h = omega arith

pub wrapping_inc_lt : (x : ℕ) → wrapping_inc x < word_mod
wrapping_inc_lt x = omega arith

pub wrapping_dec_lt : (x : ℕ) → wrapping_dec x < word_mod
wrapping_dec_lt x = omega arith
