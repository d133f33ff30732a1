-- ===== src/Policies/Balancer.antt =====
-- `Box<dyn LoadBalancer>`: the seven implementations of the trait as one, and make_policy.
mod Parts
pub mod Range
pub mod Room
pub mod Lawful
pub mod Counts
use tokendog.Base.{ℕ, String, List, Outcome, ret, ◌>>=◌, max}
use tokendog.Base.Env.{Env}
use tokendog.Config.{
  Policy, least_loaded, power_of_two, random, round_robin, session_affinity, prefix_affinity,
  load_cache_aware,
}
use tokendog.Policies.{RequestContext, LoadBalancer}
use tokendog.Policies.Active.{fetch_add, fetch_sub}
use tokendog.Policies.F64.{F64}
use tokendog.Policies.RoundRobin
use tokendog.Policies.RoundRobin.{RoundRobin}
use tokendog.Policies.Random
use tokendog.Policies.LeastLoaded
use tokendog.Policies.LeastLoaded.{LeastLoaded}
use tokendog.Policies.PowerOfTwo
use tokendog.Policies.PowerOfTwo.{PowerOfTwo}
use tokendog.Policies.SessionAffinity
use tokendog.Policies.PrefixAffinity
use tokendog.Policies.PrefixAffinity.{PrefixAffinity}
use tokendog.Policies.LoadCacheAware
use tokendog.Policies.LoadCacheAware.{LoadCacheAware}

module _ (f : F64) where
  pub data Balancer : Type 0 where
    least : LeastLoaded → Balancer
    two_choices : PowerOfTwo → Balancer
    uniform : Balancer
    cycle : RoundRobin → Balancer
    session : Balancer
    prefix : PrefixAffinity → Balancer
    cache : LoadCacheAware f → Balancer

  -- A selection that leaves the policy as it is.
  abbrev keep : Balancer → Outcome ℕ → Outcome (ℕ × Balancer)
  keep self chosen = do i ← chosen; ret (i, self)

  unfoldable pub select : Env → Balancer → List String → Outcome (ℕ × Balancer)
  select env (least p) workers = keep (least p) (LeastLoaded.select env p workers)
  select env (two_choices p) workers = keep (two_choices p) (PowerOfTwo.select env p workers)
  select env uniform workers = keep uniform (Random.select env workers)
  select env (cycle p) workers = do
    chosen ← RoundRobin.select p workers
    ret (chosen.0, cycle chosen.1)
  select env session workers = keep session (SessionAffinity.select env workers)
  select env (prefix p) workers = keep (prefix p) (PrefixAffinity.select env p workers)
  select env (cache p) workers = keep (cache p) (LoadCacheAware.select f env p workers)

  -- The default method of the trait is `select`.
  unfoldable pub select_with_context :
      Env → Balancer → List String → RequestContext → Outcome (ℕ × Balancer)
  unfolding select
  select_with_context env session workers ctx =
      keep session (SessionAffinity.select_with_context workers ctx)
  select_with_context env (prefix p) workers ctx =
      keep (prefix p) (PrefixAffinity.select_with_context env p workers ctx)
  select_with_context env (cache p) workers ctx =
      keep (cache p) (LoadCacheAware.select_with_context f env p workers ctx)
  select_with_context env self workers ctx = select env self workers

  -- The default method of the trait does nothing.
  unfoldable pub on_request_start : Balancer → ℕ → Outcome Balancer
  on_request_start (least p) i = do
    active ← fetch_add p.active i
    ret (least (record p { active = active }))
  on_request_start (two_choices p) i = do
    active ← fetch_add p.active i
    ret (two_choices (record p { active = active }))
  on_request_start (prefix p) i = do
    active ← fetch_add p.active i
    ret (prefix (record p { active = active }))
  on_request_start (cache p) i = do
    active ← fetch_add p.active i
    ret (cache (record p { active = active }))
  on_request_start self i = ret self

  unfoldable pub on_request_end : Balancer → ℕ → Outcome Balancer
  on_request_end (least p) i = do
    active ← fetch_sub p.active i
    ret (least (record p { active = active }))
  on_request_end (two_choices p) i = do
    active ← fetch_sub p.active i
    ret (two_choices (record p { active = active }))
  on_request_end (prefix p) i = do
    active ← fetch_sub p.active i
    ret (prefix (record p { active = active }))
  on_request_end (cache p) i = do
    active ← fetch_sub p.active i
    ret (cache (record p { active = active }))
  on_request_end self i = ret self

  unfoldable pub record_routing : Env → Balancer → RequestContext → ℕ → Balancer
  record_routing env (cache p) ctx worker_idx =
      cache (LoadCacheAware.record_routing f env p ctx worker_idx)
  record_routing env self ctx worker_idx = self

  instance abbrev pub balancer_trait : LoadBalancer Balancer
  balancer_trait = record {
    select = select;
    select_with_context = select_with_context;
    on_request_start = on_request_start;
    on_request_end = on_request_end;
    record_routing = record_routing;
  }

  -- `make_policy` of main.rs.
  unfoldable pub make_policy : Policy → ℕ → Outcome Balancer
  make_policy least_loaded n = ret (least (LeastLoaded.new n))
  make_policy power_of_two n = ret (two_choices (PowerOfTwo.new n))
  make_policy random n = ret uniform
  make_policy round_robin n = ret (cycle RoundRobin.new)
  make_policy session_affinity n = ret session
  make_policy prefix_affinity n = do p ← PrefixAffinity.new n; ret (prefix p)
  make_policy load_cache_aware n = do p ← LoadCacheAware.new f n; ret (cache p)

  -- `AppState::make_policy` of server.rs, which makes room for one worker at least.
  unfoldable pub make_policy_at_least_one : Policy → ℕ → Outcome Balancer
  unfolding make_policy
  make_policy_at_least_one policy n = make_policy policy (max n 1)
