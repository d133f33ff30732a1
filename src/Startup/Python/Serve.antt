-- ===== src/Startup/Python/Serve.antt =====
-- The state that `serve` of python/router-py/src/lib.rs builds.
use tokendog.Base.{
  ℕ, String, [], Option, none, some, Bool, true, false, not, ◌||◌, Outcome, ret, ◌>>=◌, ◌>>◌,
  assert, length, if◌then◌else◌,
}
use tokendog.Base.Text.{str_eq}
use tokendog.Config.{
  Policy, least_loaded, power_of_two, random, round_robin, session_affinity, prefix_affinity,
  load_cache_aware,
}
use tokendog.Config.Selectors.{parse_selector}
use tokendog.Discovery.Pods.{ServiceDiscoveryConfig}
use tokendog.Policies.RoundRobin
use tokendog.Policies.LeastLoaded
use tokendog.Policies.PowerOfTwo
use tokendog.Policies.PrefixAffinity
use tokendog.Policies.LoadCacheAware
use tokendog.Policies.F64.{F64}
use tokendog.Policies.Balancer.{
  Balancer, least, two_choices, uniform, cycle, session, prefix, cache,
}
use tokendog.Server
use tokendog.Server.{AppState, is_empty, new_pd}
use tokendog.Server.Build.{new_k8s, new_k8s_pd}
use tokendog.Worker.{from_urls}
use tokendog.Startup.{Built}
use tokendog.Startup.Python.{Router, pd_mode_enum}

-- The policy that a normalized name stands for in Kubernetes mode.
unfoldable pub policy_type : String → Policy
policy_type policy =
    if str_eq policy "least-loaded"
    then least_loaded
    else if str_eq policy "power-of-two"
    then power_of_two
    else if str_eq policy "random"
    then random
    else if str_eq policy "round-robin"
    then round_robin
    else if str_eq policy "session-affinity"
    then session_affinity
    else if str_eq policy "prefix-affinity"
    then prefix_affinity
    else if str_eq policy "load-cache-aware"
    then load_cache_aware
    else least_loaded

-- `is_k8s` of `serve`.
unfoldable pub is_k8s : Router → Bool
is_k8s self =
    not (is_empty self.k8s_selector)
    || not (is_empty self.k8s_prefill_selector)
    || not (is_empty self.k8s_decode_selector)

abbrev pub sd_config : Router → Bool → ServiceDiscoveryConfig
sd_config self pd_mode = record {
  enabled = true;
  selector = parse_selector self.k8s_selector;
  check_interval = self.k8s_check_interval_secs;
  port = self.k8s_port;
  namespace = self.k8s_namespace;
  pd_mode = pd_mode;
  prefill_selector = if pd_mode then parse_selector self.k8s_prefill_selector else [];
  decode_selector = if pd_mode then parse_selector self.k8s_decode_selector else [];
}

module _ (f : F64) where
  unfoldable pub make_policy : String → ℕ → Outcome (Balancer f)
  make_policy policy n =
      if str_eq policy "least-loaded"
      then ret (least (LeastLoaded.new n))
      else if str_eq policy "power-of-two"
      then ret (two_choices (PowerOfTwo.new n))
      else if str_eq policy "random"
      then ret uniform
      else if str_eq policy "session-affinity"
      then ret session
      else if str_eq policy "prefix-affinity"
      then (PrefixAffinity.new n >>= λ p. ret (prefix p))
      else if str_eq policy "load-cache-aware"
      then (LoadCacheAware.new f n >>= λ p. ret (cache p))
      else ret (cycle RoundRobin.new)

  module _ (to_lowercase : String → String) where
    unfoldable pub k8s_state : Router → Option String → Outcome (Built f)
    k8s_state self (some pd_mode_val) = do
      mode ← pd_mode_enum to_lowercase pd_mode_val
      state ← new_k8s_pd f mode self.request_timeout_secs (policy_type self.policy) [] []
      ret (state, some (sd_config self true))
    k8s_state self none = do
      state ← new_k8s f self.request_timeout_secs (policy_type self.policy) []
      ret (state, some (sd_config self false))

    unfoldable pub static_state : Router → Option String → Outcome (Built f)
    static_state self (some pd_mode_val) = do
      assert (not (is_empty self.prefill_urls))
      assert (not (is_empty self.decode_urls))
      mode ← pd_mode_enum to_lowercase pd_mode_val
      prefill_policy ← make_policy self.policy (length self.prefill_urls)
      decode_policy ← make_policy self.policy (length self.decode_urls)
      state ←
          new_pd mode (from_urls self.prefill_urls) (from_urls self.decode_urls)
            self.request_timeout_secs prefill_policy decode_policy (cycle RoundRobin.new)
      ret (state, none)
    static_state self none = do
      policy ← make_policy self.policy (length self.worker_urls)
      state ← Server.new (from_urls self.worker_urls) self.request_timeout_secs policy
      ret (state, none)

    -- The state that `serve` builds once its arguments are accepted.
    unfoldable pub serve_state : Router → Outcome (Built f)
    unfolding k8s_state static_state
    serve_state self =
        if is_k8s self then k8s_state self self.pd_mode else static_state self self.pd_mode
