-- ===== src/Server.antt =====
-- crates/router/src/server.rs: AppState, over any policy type. A pool behind an RwLock is its list:
-- no writer of the program panics while it holds a lock, so no lock is poisoned.
pub mod Routing
pub mod Completion
pub mod Pd
pub mod Build
pub mod Stages
use tokendog.Base.{
  ℕ, String, List, [], ◌∷◌, Option, none, some, Bool, true, false, Outcome, ret, panic, ◌>>=◌, ◌>>◌,
  assert, unwrap, length, get_elem?, map, max, ltb, not, if◌then◌else◌,
}
use tokendog.Base.Env.{Env}
use tokendog.Config.{Policy, PdMode}
use tokendog.Policies.{RequestContext, LoadBalancer}
use tokendog.Worker.{Worker, healthy_worker_urls}

pub record AppState (S : Type 0) : Type 0 where
  pub workers : List Worker
  pub timeout_secs : ℕ
  pub balancer : S
  pub pd_mode : Option PdMode
  pub prefill_workers : List Worker
  pub decode_workers : List Worker
  pub prefill_policy : Option S
  pub decode_policy : Option S
  pub k8s_mode : Bool
  pub k8s_workers_pool : Option (List Worker)
  pub k8s_prefill_pool : Option (List Worker)
  pub k8s_decode_pool : Option (List Worker)
  pub policy_type : Option Policy
  pub k8s_balancer : Option S
  pub k8s_prefill_balancer : Option S
  pub k8s_decode_balancer : Option S

abbrev pub is_empty {ℓ} : {A : Type ℓ} → List A → Bool
is_empty [] = true
is_empty (x ∷ xs) = false

module _ {S : Type 0} where
  unfoldable pub new : List Worker → ℕ → S → Outcome (AppState S)
  new workers timeout_secs balancer = do
    assert (not (is_empty workers))
    ret (record {
      workers = workers;
      timeout_secs = timeout_secs;
      balancer = balancer;
      pd_mode = none;
      prefill_workers = [];
      decode_workers = [];
      prefill_policy = none;
      decode_policy = none;
      k8s_mode = false;
      k8s_workers_pool = none;
      k8s_prefill_pool = none;
      k8s_decode_pool = none;
      policy_type = none;
      k8s_balancer = none;
      k8s_prefill_balancer = none;
      k8s_decode_balancer = none;
    })

  -- `fallback` is the round-robin policy that the function makes for the other paths.
  unfoldable pub new_pd : PdMode → List Worker → List Worker → ℕ → S → S → S → Outcome (AppState S)
  new_pd pd_mode prefill_workers decode_workers timeout_secs prefill_policy decode_policy fallback =
      do
        assert (not (is_empty prefill_workers))
        assert (not (is_empty decode_workers))
        ret (record {
          workers = decode_workers;
          timeout_secs = timeout_secs;
          balancer = fallback;
          pd_mode = some pd_mode;
          prefill_workers = prefill_workers;
          decode_workers = decode_workers;
          prefill_policy = some prefill_policy;
          decode_policy = some decode_policy;
          k8s_mode = false;
          k8s_workers_pool = none;
          k8s_prefill_pool = none;
          k8s_decode_pool = none;
          policy_type = none;
          k8s_balancer = none;
          k8s_prefill_balancer = none;
          k8s_decode_balancer = none;
        })

-- The lines that every `next_…` method repeats: pick among the healthy workers, map the index back
-- to the pool, and notify the policy.
module _ {S : Type 0} (lb : LoadBalancer S) where
  unfoldable pub pick :
      (S → List String → Outcome (ℕ × S))
      → List (ℕ × String)
      → S
      → Outcome (Option (ℕ × String) × S)
  pick choose [] policy = ret (none, policy)
  pick choose (first ∷ others) policy = do
    let healthy = first ∷ others
    (filtered_idx, chosen) ← choose policy (map (λ w. w.1) healthy)
    (original_idx, worker_url) ← unwrap (get_elem? healthy filtered_idx)
    started ← lb.on_request_start chosen original_idx
    ret (some (original_idx, worker_url), started)

  -- A pool or a policy that is absent gives no worker (the `?` of the source).
  unfoldable pub pick_from :
      (S → List String → Outcome (ℕ × S))
      → Option (List Worker)
      → Option S
      → Outcome (Option (ℕ × String) × Option S)
  unfolding pick
  pick_from choose none policy = ret (none, policy)
  pick_from choose (some workers) none = ret (none, none)
  pick_from choose (some workers) (some policy) = do
    (found, next) ← pick choose (healthy_worker_urls workers) policy
    ret (found, some next)

  unfoldable pub next_worker : Env → AppState S → Outcome (Option (ℕ × String) × AppState S)
  unfolding pick_from
  next_worker env self = elim self.k8s_mode [
    | true ↦ do
      (found, next) ← pick_from (lb.select env) self.k8s_workers_pool self.k8s_balancer
      ret (found, record self { k8s_balancer = next })
    | false ↦ do
      (found, next) ← pick (lb.select env) (healthy_worker_urls self.workers) self.balancer
      ret (found, record self { balancer = next })
  ]

  unfoldable pub next_worker_with_context :
      Env → AppState S → RequestContext → Outcome (Option (ℕ × String) × AppState S)
  unfolding pick_from
  next_worker_with_context env self ctx =
      let choose : S → List String → Outcome (ℕ × S) =
        λ p urls. lb.select_with_context env p urls ctx in
      elim self.k8s_mode [
        | true ↦ do
          (found, next) ← pick_from choose self.k8s_workers_pool self.k8s_balancer
          ret (found, record self { k8s_balancer = next })
        | false ↦ do
          (found, next) ← pick choose (healthy_worker_urls self.workers) self.balancer
          ret (found, record self { balancer = next })
      ]
