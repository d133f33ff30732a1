-- ===== src/Policies/SessionAffinity.antt =====
-- crates/router/src/policies/session_affinity.rs
use tokendog.Base.{ℕ, String, List, Outcome, ret, length, ◌==◌, if◌then◌else◌}
use tokendog.Base.Env.{Env}
use tokendog.Policies.{RequestContext}
use tokendog.Policies.Hash.{stable_hash}
use tokendog.Policies.RoundRobin.{checked_rem}

-- The policy `SessionAffinity` has no state.
pub data SessionAffinity : Type 0 where
  sticky : SessionAffinity

unfoldable pub select : Env → List String → Outcome ℕ
select env workers = if length workers == 1 then ret 0 else checked_rem env.random (length workers)

unfoldable pub select_with_context : List String → RequestContext → Outcome ℕ
select_with_context workers ctx = checked_rem (stable_hash ctx.session_id) (length workers)
