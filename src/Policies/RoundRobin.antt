-- ===== src/Policies/RoundRobin.antt =====
-- crates/router/src/policies/round_robin.rs
pub mod Fairness
use tokendog.Base.{ℕ, ◌%◌, String, List, Outcome, ret, panic, ◌>>=◌, length, if◌then◌else◌, ◌==◌}
use tokendog.Base.Words.{wrapping_inc}

pub record RoundRobin : Type 0 where
  pub counter : ℕ

abbrev pub new : RoundRobin
new = record { counter = 0 }

-- `a % b` on usize panics for `b = 0`.
abbrev pub checked_rem : ℕ → ℕ → Outcome ℕ
checked_rem a b = if b == 0 then panic else ret (a % b)

-- `counter.fetch_add(1) % workers.len()`: the old value is taken, and the counter wraps.
unfoldable pub select : RoundRobin → List String → Outcome (ℕ × RoundRobin)
select self workers = do
  i ← checked_rem self.counter (length workers)
  ret (i, record { counter = wrapping_inc self.counter })
