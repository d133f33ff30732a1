-- ===== src/Server/Build.antt =====
-- The Kubernetes constructors of AppState, its policy rebuild, and the snapshots of its pools.
use tokendog.Base.{
  ℕ, String, List, [], Option, none, some, true, Outcome, ret, ◌>>=◌, length, map, max,
}
use tokendog.Config.{Policy, PdMode}
use tokendog.Policies.RoundRobin
use tokendog.Policies.F64.{F64}
use tokendog.Policies.Balancer.{Balancer, cycle, make_policy_at_least_one}
use tokendog.Server.{AppState}
use tokendog.Worker.{Worker}

module _ (f : F64) where
  unfoldable pub new_k8s : ℕ → Policy → List Worker → Outcome (AppState (Balancer f))
  new_k8s timeout_secs policy_type workers_pool = do
    let n = length workers_pool
    let capacity = max n 256
    balancer ← make_policy_at_least_one f policy_type (max n 1)
    k8s_balancer ← make_policy_at_least_one f policy_type capacity
    ret (record {
      workers = [];
      timeout_secs = timeout_secs;
      balancer = balancer;
      pd_mode = none;
      prefill_workers = [];
      decode_workers = [];
      prefill_policy = none;
      decode_policy = none;
      k8s_mode = true;
      k8s_workers_pool = some workers_pool;
      k8s_prefill_pool = none;
      k8s_decode_pool = none;
      policy_type = some policy_type;
      k8s_balancer = some k8s_balancer;
      k8s_prefill_balancer = none;
      k8s_decode_balancer = none;
    })

  unfoldable pub new_k8s_pd :
      PdMode → ℕ → Policy → List Worker → List Worker → Outcome (AppState (Balancer f))
  new_k8s_pd pd_mode timeout_secs policy_type prefill_pool decode_pool = do
    let capacity_prefill = max (length prefill_pool) 256
    let capacity_decode = max (length decode_pool) 256
    k8s_prefill_balancer ← make_policy_at_least_one f policy_type capacity_prefill
    k8s_decode_balancer ← make_policy_at_least_one f policy_type capacity_decode
    ret (record {
      workers = [];
      timeout_secs = timeout_secs;
      balancer = cycle RoundRobin.new;
      pd_mode = some pd_mode;
      prefill_workers = [];
      decode_workers = [];
      prefill_policy = none;
      decode_policy = none;
      k8s_mode = true;
      k8s_workers_pool = none;
      k8s_prefill_pool = some prefill_pool;
      k8s_decode_pool = some decode_pool;
      policy_type = some policy_type;
      k8s_balancer = none;
      k8s_prefill_balancer = some k8s_prefill_balancer;
      k8s_decode_balancer = some k8s_decode_balancer;
    })

  -- One block of `rebuild_policy`: where both the pool and the policy are there, the policy is made
  -- anew for the size of the pool.
  unfoldable pub rebuild :
      Policy → Option (List Worker) → Option (Balancer f) → Outcome (Option (Balancer f))
  rebuild policy_type (some pool) (some old) = do
    fresh ← make_policy_at_least_one f policy_type (max (length pool) 1)
    ret (some fresh)
  rebuild policy_type _ old = ret old

  rebuild_all : AppState (Balancer f) → Option Policy → Outcome (AppState (Balancer f))
  rebuild_all self none = ret self
  rebuild_all self (some policy_type) = do
    regular ← rebuild policy_type self.k8s_workers_pool self.k8s_balancer
    prefill ← rebuild policy_type self.k8s_prefill_pool self.k8s_prefill_balancer
    decode ← rebuild policy_type self.k8s_decode_pool self.k8s_decode_balancer
    ret (record self {
      k8s_balancer = regular;
      k8s_prefill_balancer = prefill;
      k8s_decode_balancer = decode;
    })

  unfoldable pub rebuild_policy : AppState (Balancer f) → Outcome (AppState (Balancer f))
  unfolding rebuild_all rebuild
  rebuild_policy self = rebuild_all self self.policy_type

-- `unwrap_or_default` of an absent pool.
abbrev pub snapshot : Option (List Worker) → List Worker
snapshot none = []
snapshot (some pool) = pool

abbrev pub urls_of : List Worker → List String
urls_of = map (λ w. w.url)

module _ {S : Type 0} (self : AppState S) where
  abbrev pub k8s_worker_urls : List String
  k8s_worker_urls = urls_of (snapshot self.k8s_workers_pool)

  abbrev pub k8s_prefill_urls : List String
  k8s_prefill_urls = urls_of (snapshot self.k8s_prefill_pool)

  abbrev pub k8s_decode_urls : List String
  k8s_decode_urls = urls_of (snapshot self.k8s_decode_pool)

  abbrev pub k8s_workers_snapshot : List Worker
  k8s_workers_snapshot = snapshot self.k8s_workers_pool

  abbrev pub k8s_prefill_snapshot : List Worker
  k8s_prefill_snapshot = snapshot self.k8s_prefill_pool

  abbrev pub k8s_decode_snapshot : List Worker
  k8s_decode_snapshot = snapshot self.k8s_decode_pool
