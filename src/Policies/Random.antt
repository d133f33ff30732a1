-- ===== src/Policies/Random.antt =====
-- crates/router/src/policies/random.rs
use tokendog.Base.{ℕ, String, List, Outcome, length}
use tokendog.Base.Env.{Env, gen_range}

-- The policy `Random` has no state.
pub data Random : Type 0 where
  uniform : Random

unfoldable pub select : Env → List String → Outcome ℕ
select env workers = gen_range env 0 (length workers)
