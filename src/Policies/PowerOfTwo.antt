-- ===== src/Policies/PowerOfTwo.antt =====
-- crates/router/src/policies/power_of_two.rs
pub mod Choice
use tokendog.Base.{ℕ, String, List, Outcome, ret, ◌>>=◌, length, leb, if◌then◌else◌}
use tokendog.Base.Env.{Env, gen_range}
use tokendog.Policies.Active.{counters, load}

pub record PowerOfTwo : Type 0 where
  pub active : List ℕ

abbrev pub new : ℕ → PowerOfTwo
new worker_count = record { active = counters worker_count }

unfoldable pub select : Env → PowerOfTwo → List String → Outcome ℕ
select env self workers = do
  a ← gen_range env 0 (length workers)
  b ← gen_range env 1 (length workers)
  load_a ← load self.active a
  load_b ← load self.active b
  ret (if leb load_a load_b then a else b)
