-- ===== src/Tests/Server.antt =====
-- A request on a pool whose first worker is down, from its routing to its end.
use tokendog.Base.{
  ℕ, ◌≡◌, ◌↔◌, refl, String, List, [], ◌∷◌, none, some, true, false, arith, ret, get_elem?, map,
}
use tokendog.Policies.{RequestContext}
use tokendog.Policies.LeastLoaded
use tokendog.Policies.LeastLoaded.{LeastLoaded}
use tokendog.Policies.Active.{fetch_add}
use tokendog.Policies.Balancer
use tokendog.Policies.Balancer.{Balancer, least, balancer_trait}
use tokendog.Policies.Balancer.Lawful.{balancer_lawful}
use tokendog.Worker.{Worker, healthy_worker_urls, healthy_from}
use tokendog.Worker.Health.{NoneHealthy}
use tokendog.Server.{AppState, pick, next_worker_with_context}
use tokendog.Server.Completion.{finish_request}
use tokendog.Server.Routing.{
  with_policy, next_worker_with_context-IsHealthy, next_worker_with_context-none,
}
use tokendog.Server.Routing.Lifecycle.{
  next_worker_with_context_returns, finish_request-next_worker_with_context,
}
use tokendog.Tests.Samples.{quiet, tenths, alice, pool, down}

abbrev pub serving : List Worker → List ℕ → AppState (Balancer tenths)
serving workers active = record {
  workers = workers;
  timeout_secs = 30;
  balancer = least (record { active = active });
  pd_mode = none;
  prefill_workers = [];
  decode_workers = [];
  prefill_policy = none;
  decode_policy = none;
  k8s_mode = false;
  k8s_workers_pool = none;
  k8s_prefill_pool = none;
  k8s_decode_pool = none;
  policy_type = none;
  k8s_balancer = none;
  k8s_prefill_balancer = none;
  k8s_decode_balancer = none;
}

-- The two healthy workers have the indices 1 and 2; the second counter is below the first, so the
-- entry 1 is chosen, which is the worker 2.
pub routed :
    (ctx : RequestContext)
    → next_worker_with_context (balancer_trait tenths) quiet (serving pool (4 ∷ 1 ∷ 0 ∷ [])) ctx
      ≡ ret (some (2, "http://c:8000"), serving pool (4 ∷ 1 ∷ 1 ∷ []))
unfolding next_worker_with_context pick healthy_from Balancer.select_with_context
    Balancer.on_request_start LeastLoaded.select LeastLoaded.scan fetch_add
routed ctx = refl

next_worker_with_context-IsHealthy_example :
    (w : Worker) × (get_elem? pool 2 ≡ some w) × (w.url ≡ "http://c:8000") × (w.healthy ≡ true)
next_worker_with_context-IsHealthy_example =
    next_worker_with_context-IsHealthy (balancer_trait tenths) quiet (serving pool (4 ∷ 1 ∷ 0 ∷ []))
      (serving pool (4 ∷ 1 ∷ 1 ∷ [])) alice pool (least (record { active = 4 ∷ 1 ∷ 0 ∷ [] })) 2
      "http://c:8000" refl refl (routed alice)

finish_request-next_worker_with_context_example :
    (k : ℕ) × (chosen : Balancer tenths) × (Balancer.select_with_context tenths quiet
        (least (record { active = 4 ∷ 1 ∷ 0 ∷ [] }))
        (map (λ w. w.1) (healthy_worker_urls pool))
        alice
      ≡ ret (k, chosen))
    × (finish_request (balancer_trait tenths) (serving pool (4 ∷ 1 ∷ 1 ∷ [])) 2
        ≡ ret (with_policy (serving pool (4 ∷ 1 ∷ 0 ∷ [])) chosen))
finish_request-next_worker_with_context_example =
    finish_request-next_worker_with_context (balancer_trait tenths) (balancer_lawful tenths) quiet
      (serving pool (4 ∷ 1 ∷ 0 ∷ [])) (serving pool (4 ∷ 1 ∷ 1 ∷ [])) alice pool
      (least (record { active = 4 ∷ 1 ∷ 0 ∷ [] })) 2 "http://c:8000" refl refl
      (omega arith, (omega arith, (omega arith, (omega arith, tt)))) (routed alice)

selected :
    Balancer.select_with_context tenths quiet
      (least (record { active = 4 ∷ 1 ∷ 0 ∷ [] }))
      (map (λ w. w.1) (healthy_worker_urls pool))
      alice
    ≡ ret (1, least (record { active = 4 ∷ 1 ∷ 0 ∷ [] }))
unfolding healthy_from Balancer.select_with_context LeastLoaded.select LeastLoaded.scan
selected = refl

some_healthy : NoneHealthy pool → ⊥
some_healthy h = ground arith

next_worker_with_context_returns_example :
    (i : ℕ) × (url : String) × (t : AppState (Balancer tenths)) × (next_worker_with_context
        (balancer_trait tenths)
        quiet
        (serving pool (4 ∷ 1 ∷ 0 ∷ []))
        alice
      ≡ ret (some (i, url), t))
next_worker_with_context_returns_example =
    next_worker_with_context_returns (balancer_trait tenths) (balancer_lawful tenths) quiet
      (serving pool (4 ∷ 1 ∷ 0 ∷ [])) alice pool (least (record { active = 4 ∷ 1 ∷ 0 ∷ [] }))
      (least (record { active = 4 ∷ 1 ∷ 0 ∷ [] })) 1 refl refl
      (omega arith, (omega arith, (omega arith, (omega arith, tt)))) some_healthy selected

next_worker_with_context-none_example :
    (((t : AppState (Balancer tenths)) × (next_worker_with_context
            (balancer_trait tenths)
            quiet
            (serving down (4 ∷ []))
            alice
          ≡ ret (none, t)))
      ↔ NoneHealthy down)
    × (NoneHealthy down
        → next_worker_with_context (balancer_trait tenths) quiet (serving down (4 ∷ [])) alice
          ≡ ret (none, serving down (4 ∷ [])))
next_worker_with_context-none_example =
    next_worker_with_context-none (balancer_trait tenths) quiet (serving down (4 ∷ [])) alice down
      (least (record { active = 4 ∷ [] })) refl refl
