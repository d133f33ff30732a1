-- ===== src/Startup/Launch.antt =====
-- main of crates/router/src/main.rs as a whole: tracing, the state, the health check task, the
-- listener and the server. What the operating system, tokio and axum give is the record Host, in
-- which `none` is an Ok and `some` the text of an Err.
use Prim.Native.String
use tokendog.Base.{
  ℕ, String, Option, none, some, Bool, true, false, Outcome, ret, ◌>>=◌, ◌>>◌, assert,
  if◌then◌else◌,
}
use tokendog.Config.{Config, LogLevel}
use tokendog.Config.Auth
use tokendog.Config.Auth.{AuthConfig}
use tokendog.Config.Logging.Tracing.{Tracing, Opened, setup_tracing, to_tracing_level}
use tokendog.Discovery.Pods.{ServiceDiscoveryConfig}
use tokendog.Policies.F64.{F64}
use tokendog.Policies.Balancer.{Balancer}
use tokendog.Server.{AppState}
use tokendog.Startup.{Built, build_state, health_round}

module _ (f : F64) {D : Type 0} (digest : String → D) (ct_eq : D → D → Bool) where
  -- One turn of a health check task: the waiting in seconds, and what it does to the state.
  pub record HealthTask : Type 0 where
    pub interval : ℕ
    pub turn : (String → Option ℕ) → AppState (Balancer f) → AppState (Balancer f)

  -- What runs once the listener is bound: the service on its state with the authentication, the
  -- service discovery and the health check task.
  pub record Launched : Type 0 where
    pub state : AppState (Balancer f)
    pub discovery : Option ServiceDiscoveryConfig
    pub auth_config : AuthConfig digest ct_eq
    pub health_task : Option HealthTask

  pub record Host : Type 1 where
    pub tracing : Tracing
    pub opened : String → Opened
    pub display : ℕ → String
    -- `TcpListener::bind` on a text.
    pub bind : String → Option String
    -- `axum::serve` until the signal of the shutdown.
    pub served : Launched → Option String

  abbrev pub is_ok : Option String → Bool
  is_ok none = true
  is_ok (some e) = false

  module _ (host : Host) where
    unfoldable pub listen_addr : Config → String
    listen_addr config = String.◌++◌ config.host (String.◌++◌ ":" (host.display config.port))

    abbrev pub health_task_of : Config → Option HealthTask
    health_task_of config =
        if config.health_check
        then some (record { interval = config.health_check_interval_secs; turn = health_round })
        else none

    abbrev pub launched : Config → Built f → Launched
    launched config (state, discovery) = record {
      state = state;
      discovery = discovery;
      auth_config = Auth.new digest ct_eq (some config.data_plane_api_keys);
      health_task = health_task_of config;
    }

    -- The listener and the server; what ran is the result.
    unfoldable pub listen : String → Launched → Outcome Launched
    listen addr run = do assert (is_ok (host.bind addr)); assert (is_ok (host.served run)); ret run

    abbrev pub tracing_of : LogLevel → Option String → Option String
    tracing_of log_level log_file =
        setup_tracing host.tracing host.opened
          (host.tracing.from_env (to_tracing_level host.tracing log_level)) log_file

    unfoldable pub main : Config → Outcome Launched
    unfolding build_state
    main config = do
      assert (is_ok (tracing_of config.log_level config.log_file))
      built ← build_state f config
      listen (listen_addr config) (launched config built)
