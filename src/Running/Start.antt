-- ===== src/Running/Start.antt =====
-- From the state that main.rs builds: the counters of a router that has run.
use tokendog.Base.{
  ℕ, ◌<◌, ◌≤◌, ◌≡◌, subst, ap, ◌∙◌, String, List, [], ◌∷◌, ◌++◌, Option, none, some, Bool-cases,
  inl, inr, not, ret, ret_eq, assert, >>=-eq-ret, if◌then◌else◌, arith, length, length-map,
}
use tokendog.Config.{Config, PdMode, has_k8s_enabled}
use tokendog.Discovery.Pods.{ServiceDiscoveryConfig}
use tokendog.Policies.RoundRobin
use tokendog.Policies.F64.{F64}
use tokendog.Policies.Balancer.{
  Balancer, cycle, balancer_trait, make_policy, make_policy_at_least_one,
}
use tokendog.Policies.Balancer.Counts.{make_policy-Counts}
use tokendog.Server.{AppState, new, new_pd, is_empty}
use tokendog.Server.Build.{new_k8s, new_k8s_pd}
use tokendog.Startup.{k8s_state, static_state, build_state}
use tokendog.Running.Routes.{Route, regular, prefill, decode, finish_on}
use tokendog.Running.Steps.{Running, Reach}
use tokendog.Running.Loads.{load_on}
use tokendog.Running.Balanced.{IsBalanced}
use tokendog.Running.Invariant.{Reach-IsBalanced, finish_returns}
use tokendog.Worker
use tokendog.Worker.{Worker, from_urls}

-- The workers of a route that a configuration without Kubernetes lists.
abbrev pub listed_on : Config → Option PdMode → Route → ℕ
listed_on config none regular = length config.worker_urls
listed_on config none _ = 0
listed_on config (some mode) prefill = length config.prefill_urls
listed_on config (some mode) _ = length config.decode_urls

-- How many workers the policy of a route has counters for; 256 where Kubernetes finds the workers.
abbrev pub capacity_of : Config → Route → ℕ
capacity_of config r = if has_k8s_enabled config then 256 else listed_on config config.pd_mode r

-- The router as it starts, with no request in flight.
abbrev pub idle : {S : Type 0} → AppState S → Running S
idle self = record { state = self; in_flight = [] }

from_urls_fit : (urls : List String) → length (from_urls urls) ≤ length urls
from_urls_fit urls = let e = length-map Worker.new urls in omega arith

nothing_in_flight : (n i : ℕ) → ◌<◌ 0 0 → i < n
nothing_in_flight n i pos = absurd (omega arith)

by_route : (P : Route → Type 0) → P regular → P prefill → P decode → (r : Route) → P r
by_route P a b c regular = a
by_route P a b c prefill = b
by_route P a b c decode = c

module _ (f : F64) where
  new_k8s-IsBalanced :
      (config : Config) (timeout : ℕ) (self : AppState (Balancer f))
      → new_k8s f timeout config.policy [] ≡ ret self
      → IsBalanced f (λ r. 256) (idle self)
  unfolding new_k8s make_policy_at_least_one load_on
  new_k8s-IsBalanced config timeout self e =
      let (p, made, e1) = >>=-eq-ret (make_policy f config.policy 1) _ e in
      let (q, made', last) = >>=-eq-ret (make_policy f config.policy 256) _ e1 in
      subst (λ s. IsBalanced f (λ r. 256) (idle s)) (ret_eq last)
        (by_route _
          (omega arith, make_policy-Counts f config.policy 256 q made', nothing_in_flight 256)
          (tt, tt, nothing_in_flight 256) (tt, tt, nothing_in_flight 256))

  new_k8s_pd-IsBalanced :
      (config : Config) (mode : PdMode) (timeout : ℕ) (self : AppState (Balancer f))
      → new_k8s_pd f mode timeout config.policy [] [] ≡ ret self
      → IsBalanced f (λ r. 256) (idle self)
  unfolding new_k8s_pd make_policy_at_least_one load_on
  new_k8s_pd-IsBalanced config mode timeout self e =
      let (p, made, e1) = >>=-eq-ret (make_policy f config.policy 256) _ e in
      let (q, made', last) = >>=-eq-ret (make_policy f config.policy 256) _ e1 in
      subst (λ s. IsBalanced f (λ r. 256) (idle s)) (ret_eq last)
        (by_route _ (tt, tt, nothing_in_flight 256)
          (omega arith, make_policy-Counts f config.policy 256 p made, nothing_in_flight 256)
          (omega arith, make_policy-Counts f config.policy 256 q made', nothing_in_flight 256))

  new-IsBalanced :
      (config : Config) (p : Balancer f) (self : AppState (Balancer f))
      → make_policy f config.policy (length config.worker_urls) ≡ ret p
      → new (from_urls config.worker_urls) config.request_timeout_secs p ≡ ret self
      → IsBalanced f (listed_on config none) (idle self)
  unfolding new load_on
  new-IsBalanced config p self made e =
      let (_, _, last) = >>=-eq-ret (assert (not (is_empty (from_urls config.worker_urls)))) _ e in
      let n = length config.worker_urls in
      subst (λ s. IsBalanced f (listed_on config none) (idle s)) (ret_eq last)
        (by_route _
          (
            from_urls_fit config.worker_urls,
            make_policy-Counts f config.policy n p made,
            nothing_in_flight n,
          )
          (omega arith, tt, nothing_in_flight 0) (omega arith, tt, nothing_in_flight 0))

  new_pd-IsBalanced :
      (config : Config) (mode : PdMode) (p q : Balancer f) (self : AppState (Balancer f))
      → make_policy f config.policy (length config.prefill_urls) ≡ ret p
      → make_policy f config.policy (length config.decode_urls) ≡ ret q
      → new_pd mode
          (from_urls config.prefill_urls)
          (from_urls config.decode_urls)
          config.request_timeout_secs
          p
          q
          (cycle RoundRobin.new)
        ≡ ret self
      → IsBalanced f (listed_on config (some mode)) (idle self)
  unfolding new_pd load_on
  new_pd-IsBalanced config mode p q self made made' e =
      let (_, _, e1) = >>=-eq-ret (assert (not (is_empty (from_urls config.prefill_urls)))) _ e in
      let (_, _, last) = >>=-eq-ret (assert (not (is_empty (from_urls config.decode_urls)))) _ e1 in
      let n = length config.prefill_urls in
      let m = length config.decode_urls in
      subst (λ s. IsBalanced f (listed_on config (some mode)) (idle s)) (ret_eq last)
        (by_route _ (from_urls_fit config.decode_urls, tt, nothing_in_flight m)
          (
            from_urls_fit config.prefill_urls,
            make_policy-Counts f config.policy n p made,
            nothing_in_flight n,
          )
          (
            from_urls_fit config.decode_urls,
            make_policy-Counts f config.policy m q made',
            nothing_in_flight m,
          ))

  k8s_state-IsBalanced :
      (config : Config) (pd_mode : Option PdMode) (self : AppState (Balancer f))
      (d : Option ServiceDiscoveryConfig)
      → k8s_state f config pd_mode ≡ ret (self, d)
      → IsBalanced f (λ r. 256) (idle self)
  unfolding k8s_state
  k8s_state-IsBalanced config none self d e =
      let (state, built, last) =
        >>=-eq-ret (new_k8s f config.request_timeout_secs config.policy []) _ e in
      let same : state ≡ self = cc in new_k8s-IsBalanced config _ self (built ∙ ap ret same)
  k8s_state-IsBalanced config (some mode) self d e =
      let (state, built, last) =
        >>=-eq-ret (new_k8s_pd f mode config.request_timeout_secs config.policy [] []) _ e in
      let same : state ≡ self = cc in new_k8s_pd-IsBalanced config mode _ self (built ∙ ap ret same)

  static_state-IsBalanced :
      (config : Config) (pd_mode : Option PdMode) (self : AppState (Balancer f))
      (d : Option ServiceDiscoveryConfig)
      → static_state f config pd_mode ≡ ret (self, d)
      → IsBalanced f (listed_on config pd_mode) (idle self)
  unfolding static_state
  static_state-IsBalanced config none self d e =
      let (p, made, e1) =
        >>=-eq-ret (make_policy f config.policy (length config.worker_urls)) _ e in
      let (state, built, last) =
        >>=-eq-ret (new (from_urls config.worker_urls) config.request_timeout_secs p) _ e1 in
      let same : state ≡ self = cc in new-IsBalanced config p self made (built ∙ ap ret same)
  static_state-IsBalanced config (some mode) self d e =
      let (_, _, e1) = >>=-eq-ret (assert (not (is_empty config.prefill_urls))) _ e in
      let (_, _, e2) = >>=-eq-ret (assert (not (is_empty config.decode_urls))) _ e1 in
      let (p, made, e3) =
        >>=-eq-ret (make_policy f config.policy (length config.prefill_urls)) _ e2 in
      let (q, made', e4) =
        >>=-eq-ret (make_policy f config.policy (length config.decode_urls)) _ e3 in
      let (state, built, last) =
        >>=-eq-ret
          (new_pd mode (from_urls config.prefill_urls) (from_urls config.decode_urls)
            config.request_timeout_secs p q (cycle RoundRobin.new))
          _ e4 in
      let same : state ≡ self = cc in
      new_pd-IsBalanced config mode p q self made made' (built ∙ ap ret same)

  build_state-IsBalanced :
      (config : Config) (self : AppState (Balancer f)) (d : Option ServiceDiscoveryConfig)
      → build_state f config ≡ ret (self, d)
      → IsBalanced f (capacity_of config) (idle self)
  unfolding build_state
  build_state-IsBalanced config self d e = elim (Bool-cases (has_k8s_enabled config)) [
    | inl on ↦ rw on (k8s_state-IsBalanced config config.pd_mode self d (rw on at e))
    | inr off ↦ rw off (static_state-IsBalanced config config.pd_mode self d (rw off at e))
  ]

  module _ (config : Config) (self : AppState (Balancer f)) (d : Option ServiceDiscoveryConfig)
      (b : Running (Balancer f)) where
    -- From the state that the startup builds, after any calls of the handlers, of the health checks,
    -- whose answers may change from round to round, and of a discovery that never has more than 256
    -- workers in a pool, in any order: the pool of each route has no more workers than its policy has
    -- counters, each counter of a policy that counts is the number of the requests in flight that
    -- were given its index, modulo 2 ^ 64, and the indices in flight have a counter.
    pub running-IsBalanced :
        build_state f config ≡ ret (self, d)
        → Reach (balancer_trait f) (capacity_of config) (idle self) b
        → IsBalanced f (capacity_of config) b
    running-IsBalanced built run =
        Reach-IsBalanced f (capacity_of config) run (build_state-IsBalanced config self d built)

    -- In a state that the router reaches from the one the startup builds by any such calls, the
    -- discovery never having more than 256 workers in a pool, every request in flight can end without
    -- a panic, whichever ends first, and then each counter of a policy that counts is the number of
    -- the requests left that were given its index, modulo 2 ^ 64.
    pub running-finish_on :
        (r : Route) (i : ℕ) (before after : List (Route × ℕ))
        → build_state f config ≡ ret (self, d)
        → Reach (balancer_trait f) (capacity_of config) (idle self) b
        → b.in_flight ≡ before ++ (r, i) ∷ after
        → (t : AppState (Balancer f)) × (finish_on (balancer_trait f) r b.state i ≡ ret t)
          × IsBalanced f (capacity_of config) (record { state = t; in_flight = before ++ after })
    running-finish_on r i before after built run at =
        finish_returns f (capacity_of config) b r i before after (running-IsBalanced built run) at
