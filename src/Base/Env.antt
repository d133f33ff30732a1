-- ===== src/Base/Env.antt =====
-- What a call takes from its surroundings: the draws of `rand` and the reading of the clock.
use tokendog.Base.Tests.{◌==◌, if◌then◌else◌}
use tokendog.Base.Words.{word_mod}
use tokendog.Base.Panics.{Outcome, ret, panic}
use Prim.Native.Nat.{ℕ, ◌<◌}

-- `draw k n` is what the k-th draw `gen_range(0..n)` of the call gives, and `random` is what
-- `rand::random::<usize>()` gives. The crate documents that a draw lies in its range.
pub record Env : Type 0 where
  pub draw : ℕ → ℕ → ℕ
  pub draw_lt : (k n : ℕ) → 0 < n → draw k n < n
  pub random : ℕ
  pub random_lt : random < word_mod
  pub now : ℕ

-- `gen_range(0..n)` panics on the empty range.
abbrev pub gen_range : Env → ℕ → ℕ → Outcome ℕ
gen_range env k n = if n == 0 then panic else ret (env.draw k n)
