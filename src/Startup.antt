-- ===== src/Startup.antt =====
-- crates/router/src/main.rs: from the parsed command line to the state of the router, and a round of
-- the health checks. The HTTP client of a round is `get`, as in the health checks of a worker.
pub mod Python
pub mod Health
pub mod Ready
pub mod Outcomes
pub mod Launch
use tokendog.Base.{
  ℕ, String, List, [], ◌∷◌, Option, none, some, Bool, true, false, not, Outcome, ret, ◌>>=◌, ◌>>◌,
  assert, length, if◌then◌else◌,
}
use tokendog.Config.{Config, PdMode, has_k8s_enabled}
use tokendog.Config.Selectors.{parse_selector}
use tokendog.Discovery.Pods.{ServiceDiscoveryConfig}
use tokendog.Policies.RoundRobin
use tokendog.Policies.F64.{F64}
use tokendog.Policies.Balancer.{Balancer, cycle, make_policy}
use tokendog.Server.{AppState, new, new_pd, is_empty}
use tokendog.Server.Build.{
  new_k8s, new_k8s_pd, k8s_workers_snapshot, k8s_prefill_snapshot, k8s_decode_snapshot,
}
use tokendog.Worker.{Worker, from_urls, run_health_checks}

-- The configuration of the service discovery that the program starts in Kubernetes mode.
abbrev pub discovery_config : Config → Bool → ServiceDiscoveryConfig
discovery_config config pd_mode = record {
  enabled = true;
  selector = parse_selector config.k8s_selector;
  check_interval = config.k8s_check_interval_secs;
  port = config.k8s_port;
  namespace = config.k8s_namespace;
  pd_mode = pd_mode;
  prefill_selector = if pd_mode then parse_selector config.k8s_prefill_selector else [];
  decode_selector = if pd_mode then parse_selector config.k8s_decode_selector else [];
}

module _ (f : F64) where
  -- The state, and the configuration of the service discovery where it is started. Its pools are the
  -- ones of the state.
  abbrev pub Built : Type 0
  Built = AppState (Balancer f) × Option ServiceDiscoveryConfig

  unfoldable pub k8s_state : Config → Option PdMode → Outcome Built
  k8s_state config (some pd_mode) = do
    state ← new_k8s_pd f pd_mode config.request_timeout_secs config.policy [] []
    ret (state, some (discovery_config config true))
  k8s_state config none = do
    state ← new_k8s f config.request_timeout_secs config.policy []
    ret (state, some (discovery_config config false))

  unfoldable pub static_state : Config → Option PdMode → Outcome Built
  static_state config (some pd_mode) = do
    assert (not (is_empty config.prefill_urls))
    assert (not (is_empty config.decode_urls))
    prefill_policy ← make_policy f config.policy (length config.prefill_urls)
    decode_policy ← make_policy f config.policy (length config.decode_urls)
    state ←
        new_pd pd_mode (from_urls config.prefill_urls) (from_urls config.decode_urls)
          config.request_timeout_secs prefill_policy decode_policy (cycle RoundRobin.new)
    ret (state, none)
  static_state config none = do
    policy ← make_policy f config.policy (length config.worker_urls)
    state ← new (from_urls config.worker_urls) config.request_timeout_secs policy
    ret (state, none)

  unfoldable pub build_state : Config → Outcome Built
  unfolding k8s_state static_state
  build_state config =
      if has_k8s_enabled config
      then k8s_state config config.pd_mode
      else static_state config config.pd_mode

-- `if !workers.is_empty() { run_health_checks(..) }`.
abbrev pub checked : (String → Option ℕ) → List Worker → List Worker
checked get workers = if is_empty workers then workers else run_health_checks get workers

abbrev pub checked_pool : (String → Option ℕ) → Option (List Worker) → Option (List Worker)
checked_pool get none = none
checked_pool get (some workers) = some (checked get workers)

-- One turn of the health check loop. The workers are shared, so the checks of a snapshot set the
-- flags of the pool; a URL has one answer in a round, so a worker of two lists gets one flag.
unfoldable pub health_round : {S : Type 0} → (String → Option ℕ) → AppState S → AppState S
health_round get self =
    if self.k8s_mode
    then record self {
      k8s_workers_pool = checked_pool get self.k8s_workers_pool;
      k8s_prefill_pool = checked_pool get self.k8s_prefill_pool;
      k8s_decode_pool = checked_pool get self.k8s_decode_pool;
    }
    else record self {
      workers = run_health_checks get self.workers;
      prefill_workers = checked get self.prefill_workers;
      decode_workers = checked get self.decode_workers;
    }
