-- ===== src/Policies/PrefixAffinity.antt =====
-- crates/router/src/policies/prefix_affinity.rs
pub mod Routing
use tokendog.Base.{
  ℕ, String, List, Outcome, ret, ◌>>=◌, ◌>>◌, assert, length, ltb, ◌==◌, if◌then◌else◌,
}
use tokendog.Base.Env.{Env}
use tokendog.Policies.{RequestContext}
use tokendog.Policies.Active.{counters, load}
use tokendog.Policies.Hash.{stable_hash}
use tokendog.Policies.RoundRobin.{checked_rem}
use tokendog.Policies.Shortest.{jsq_fallback}

pub record PrefixAffinity : Type 0 where
  pub active : List ℕ
  pub threshold : ℕ

abbrev pub with_threshold : ℕ → ℕ → Outcome PrefixAffinity
with_threshold worker_count threshold = do
  assert (ltb 0 worker_count)
  ret (record { active = counters worker_count; threshold = threshold })

abbrev pub new : ℕ → Outcome PrefixAffinity
new worker_count = with_threshold worker_count 10

unfoldable pub select : Env → PrefixAffinity → List String → Outcome ℕ
select env self workers =
    if length workers == 1 then ret 0 else jsq_fallback env self.active (length workers)

unfoldable pub select_with_context : Env → PrefixAffinity → List String → RequestContext → Outcome ℕ
select_with_context env self workers ctx =
    let n = length workers in
    let hashed = do
      preferred ← checked_rem (stable_hash ctx.prefix_key) n
      q ← load self.active preferred
      if ltb q self.threshold then ret preferred else jsq_fallback env self.active n
    in if n == 1 then ret 0 else hashed
