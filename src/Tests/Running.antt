-- ===== src/Tests/Running.antt =====
-- Two requests in flight on two workers, a round of the health checks, and the end of the first.
use tokendog.Base.{ℕ, ◌≡◌, refl, List, [], ◌∷◌, none, some, ret}
use tokendog.Config.{has_k8s_enabled}
use tokendog.Policies.Active.{fetch_add}
use tokendog.Policies.Balancer
use tokendog.Policies.Balancer.{Balancer, balancer_trait}
use tokendog.Policies.LeastLoaded
use tokendog.Running.Routes.{regular, next_on, finish_on}
use tokendog.Running.Steps.{Running, given, probed, Reach, here, later}
use tokendog.Running.Balanced.{IsBalanced}
use tokendog.Running.Start.{capacity_of, idle, running-IsBalanced, running-finish_on}
use tokendog.Server.{AppState, pick, new, next_worker_with_context}
use tokendog.Startup.{build_state, static_state, health_round}
use tokendog.Tests.Samples.{quiet, tenths, alice, two_urls}
use tokendog.Tests.Server.{serving}
use tokendog.Tests.Startup.{config, only_a}
use tokendog.Worker.{Worker, from_urls, healthy_from}

-- The state that the startup builds, with other workers and counters.
abbrev at : List Worker → List ℕ → AppState (Balancer tenths)
at workers active = record (serving workers active) { timeout_secs = 300 }

built : build_state tenths config ≡ ret (at (from_urls two_urls) (0 ∷ 0 ∷ []), none)
unfolding build_state static_state new Balancer.make_policy has_k8s_enabled
built = refl

first :
    next_on (balancer_trait tenths) regular quiet (at (from_urls two_urls) (0 ∷ 0 ∷ [])) alice
    ≡ ret (some (0, "http://a:8000"), at (from_urls two_urls) (1 ∷ 0 ∷ []))
unfolding next_worker_with_context pick healthy_from Balancer.select_with_context
    Balancer.on_request_start LeastLoaded.select LeastLoaded.scan fetch_add
first = refl

second :
    next_on (balancer_trait tenths) regular quiet (at (from_urls two_urls) (1 ∷ 0 ∷ [])) alice
    ≡ ret (some (1, "http://b:8000"), at (from_urls two_urls) (1 ∷ 1 ∷ []))
unfolding next_worker_with_context pick healthy_from Balancer.select_with_context
    Balancer.on_request_start LeastLoaded.select LeastLoaded.scan fetch_add
second = refl

abbrev both : Running (Balancer tenths)
both = record {
  state = health_round only_a (at (from_urls two_urls) (1 ∷ 1 ∷ []));
  in_flight = (regular, 1) ∷ (regular, 0) ∷ [];
}

run :
    Reach
      (balancer_trait tenths)
      (capacity_of config)
      (idle (at (from_urls two_urls) (0 ∷ 0 ∷ [])))
      both
run =
    later
      (later
        {b = record { state = at (from_urls two_urls) (1 ∷ 0 ∷ []); in_flight = (regular, 0) ∷ [] }}
        (later here (given regular quiet alice 0 "http://a:8000" first refl))
        (given regular quiet alice 1 "http://b:8000" second refl))
      (probed only_a refl refl)

running-IsBalanced_example : IsBalanced tenths (capacity_of config) both
running-IsBalanced_example =
    running-IsBalanced tenths config (at (from_urls two_urls) (0 ∷ 0 ∷ [])) none both built run

running-finish_on_example :
    (t : AppState (Balancer tenths)) × (finish_on (balancer_trait tenths) regular both.state 0
      ≡ ret t)
    × IsBalanced tenths (capacity_of config) (record { state = t; in_flight = (regular, 1) ∷ [] })
running-finish_on_example =
    running-finish_on tenths config (at (from_urls two_urls) (0 ∷ 0 ∷ [])) none both regular 0
      ((regular, 1) ∷ []) [] built run refl
