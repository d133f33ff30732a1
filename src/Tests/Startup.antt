-- ===== src/Tests/Startup.antt =====
-- A router with two workers, from the command line and from Python; its health checks; a watcher that
-- fails twice.
use tokendog.Base.{
  ℕ, ◌≡◌, refl, String, List, [], ◌∷◌, Option, none, some, true, false, ret, panic, ◌↔◌,
  if◌then◌else◌,
}
use tokendog.Base.Text.{str_eq}
use tokendog.Config.{Config, Policy, least_loaded, PdMode, info}
use tokendog.Discovery.Pods.{ServiceDiscoveryConfig, default}
use tokendog.Discovery.Pools.{Discovery}
use tokendog.Discovery.Watcher.{StreamRun, watch_all, start, watcher_loop}
use tokendog.Discovery.Watcher.Backoff.{watcher_loop-start}
use tokendog.Policies.Balancer.{Balancer, least}
use tokendog.Server.{AppState}
use tokendog.Server.Routing.{serving_pool, serving_policy}
use tokendog.Server.Stages.{prefill_stage, decode_stage}
use tokendog.Startup.{build_state, health_round}
use tokendog.Startup.Outcomes.{HasWorkers, build_state-IsReady}
use tokendog.Startup.Ready.{IsReady}
use tokendog.Startup.Python.{valid, Router, Arguments, new, validate_policy, validate_pd_mode}
use tokendog.Startup.Python.Serve.{serve_state}
use tokendog.Startup.Python.Same.{policy_name, IsMode, config_of, serve_state-build_state}
use tokendog.Startup.Health.{IsProbed, health_round-IsProbed}
use tokendog.Tests.Samples.{tenths, two_urls, pool}
use tokendog.Tests.Server.{serving}

abbrev pub lowered : String → String
lowered s = if str_eq s "Least_Loaded" then "least_loaded" else s

abbrev pub arguments : Arguments
arguments = record {
  worker_urls = two_urls;
  host = "0.0.0.0";
  port = 30000;
  request_timeout_secs = 300;
  log_level = "info";
  policy = "Least_Loaded";
  pd_mode = none;
  prefill_urls = none;
  decode_urls = none;
  data_plane_api_keys = none;
  health_check = true;
  health_check_interval_secs = 60;
  log_file = none;
  k8s_selector = none;
  k8s_namespace = none;
  k8s_port = 8000;
  k8s_check_interval_secs = 60;
  k8s_prefill_selector = none;
  k8s_decode_selector = none;
}

abbrev pub router : Router
router = record {
  worker_urls = two_urls;
  host = "0.0.0.0";
  port = 30000;
  request_timeout_secs = 300;
  log_level = "info";
  policy = "least-loaded";
  pd_mode = none;
  prefill_urls = [];
  decode_urls = [];
  data_plane_api_keys = [];
  health_check = true;
  health_check_interval_secs = 60;
  log_file = none;
  k8s_selector = [];
  k8s_namespace = none;
  k8s_port = 8000;
  k8s_check_interval_secs = 60;
  k8s_prefill_selector = [];
  k8s_decode_selector = [];
}

pub accepted : new lowered arguments ≡ valid router
unfolding new validate_policy validate_pd_mode
accepted = refl

serve_state-build_state_example :
    (policy : Policy) × (mode : Option PdMode) × (router.policy ≡ policy_name policy)
    × IsMode lowered router.pd_mode mode
    × (serve_state tenths lowered router
        ≡ build_state tenths (config_of lowered info policy mode router))
serve_state-build_state_example =
    serve_state-build_state lowered tenths info arguments router accepted

abbrev pub config : Config
config = config_of lowered info least_loaded none router

build_state-IsReady_example :
    (((self : AppState (Balancer tenths)) × (d : Option ServiceDiscoveryConfig) × (build_state
            tenths config
          ≡ ret (self, d))
        × IsReady tenths self)
      ↔ HasWorkers config)
    × ((build_state tenths config ≡ panic) ↔ ¬ HasWorkers config)
build_state-IsReady_example = build_state-IsReady tenths 0 refl config

-- Worker a answers, the others do not.
abbrev pub only_a : String → Option ℕ
only_a url = if str_eq url "http://a:8000/health" then some 200 else none

health_round-IsProbed_example :
    IsProbed only_a (some pool) (serving_pool (health_round only_a (serving pool [])))
    × IsProbed only_a (some []) (prefill_stage.pool (health_round only_a (serving pool [])))
    × IsProbed only_a (some []) (decode_stage.pool (health_round only_a (serving pool [])))
    × (serving_policy (health_round only_a (serving pool []))
        ≡ some (least (record { active = [] })))
    × (prefill_stage.policy (health_round only_a (serving pool [])) ≡ none)
    × (decode_stage.policy (health_round only_a (serving pool [])) ≡ none)
health_round-IsProbed_example = health_round-IsProbed only_a (serving pool [])

abbrev failing : StreamRun
failing = record { pods = []; failed = true }

abbrev nothing : Discovery
nothing = record { tracked = []; regular_pool = []; prefill_pool = none; decode_pool = none }

-- Two failures, a run that ends well, and one more failure.
abbrev runs : List StreamRun
runs = failing ∷ failing ∷ record failing { failed = false } ∷ failing ∷ []

watcher_loop-start_example :
    ((watcher_loop default runs (start nothing)).retry_delay ≡ 2)
    × ((watcher_loop default runs (start nothing)).waits ≡ 1 ∷ 60 ∷ 2 ∷ 60 ∷ 60 ∷ 1 ∷ 60 ∷ [])
    × ((watcher_loop default runs (start nothing)).discovery ≡ watch_all default [] nothing)
watcher_loop-start_example = watcher_loop-start default runs nothing
