-- ===== src/Policies/LeastLoaded.antt =====
-- crates/router/src/policies/least_loaded.rs
pub mod Minimality
use tokendog.Base.{
  ℕ, zero, suc, ◌+◌, ◌-◌, String, List, Outcome, ret, ◌>>=◌, length, ltb, if◌then◌else◌,
}
use tokendog.Base.Env.{Env, gen_range}
use tokendog.Policies.Active.{counters, load}

pub record LeastLoaded : Type 0 where
  pub active : List ℕ

abbrev pub new : ℕ → LeastLoaded
new worker_count = record { active = counters worker_count }

-- `for i in 1..n`, with `rounds` rounds left.
unfoldable pub scan : List ℕ → ℕ → ℕ → ℕ → ℕ → Outcome ℕ
scan active zero i best least = ret best
scan active (suc rounds) i best least = do
  q ← load active i
  scan active rounds (i + 1) (if ltb q least then i else best) (if ltb q least then q else least)

unfoldable pub select : Env → LeastLoaded → List String → Outcome ℕ
select env self workers = do
  best ← gen_range env 0 (length workers)
  least ← load self.active 0
  scan self.active (length workers - 1) 1 best least
