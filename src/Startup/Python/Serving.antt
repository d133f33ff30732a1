-- ===== src/Startup/Python/Serving.antt =====
-- `serve` of python/router-py/src/lib.rs as a whole. A tracing subscriber that is not installed is
-- only printed, so the tracing is no part of the result.
use Prim.Native.String
use tokendog.Base.{ℕ, String, Option, none, some, Bool, ◌||◌, Outcome, ret, ◌>>=◌, if◌then◌else◌}
use tokendog.Base.Text.{str_eq}
use tokendog.Config.Auth
use tokendog.Policies.F64.{F64}
use tokendog.Server.{AppState}
use tokendog.Worker.{run_health_checks}
use tokendog.Startup.{Built, checked, checked_pool}
use tokendog.Startup.Launch.{Launched, Host}
use tokendog.Startup.Python.{Router, invalid}
use tokendog.Startup.Python.Serve.{serve_state}

-- One turn of the health check loop: in static mode it checks clones of the lists, whose workers are
-- shared with the state.
unfoldable pub health_turn : {S : Type 0} → (String → Option ℕ) → AppState S → AppState S
health_turn get self =
    if self.k8s_mode
    then record self {
      k8s_workers_pool = checked_pool get self.k8s_workers_pool;
      k8s_prefill_pool = checked_pool get self.k8s_prefill_pool;
      k8s_decode_pool = checked_pool get self.k8s_decode_pool;
    }
    else record self {
      workers = run_health_checks get self.workers;
      prefill_workers = checked get self.prefill_workers;
      decode_workers = checked get self.decode_workers;
    }

unfoldable pub is_level : String → Bool
is_level s = str_eq s "error" || str_eq s "warn" || str_eq s "info" || str_eq s "debug"

-- What the standard library and tokio give to `serve` beside a Host: the error of a text that is no IP
-- address, the error of a runtime that cannot be made, and the socket address of a host with a port,
-- with its text.
pub record PyHost : Type 0 where
  pub parse_ip : String → Option String
  pub new_runtime : Option String
  pub bind_addr : String → ℕ → Option String
  pub display_addr : String → ℕ → String

module _ (f : F64) {D : Type 0} (digest : String → D) (ct_eq : D → D → Bool) where
  -- PyResult of `serve`: what ran until the shutdown, or one of the two exceptions.
  pub data Served : Type 0 where
    stopped : Launched f digest ct_eq → Served
    value_error : String → Served
    runtime_error : String → Served

  module _ (host : Host f digest ct_eq) (py : PyHost) (to_lowercase : String → String) where
    abbrev pub launched : Router → Built f → Launched f digest ct_eq
    launched self (state, discovery) = record {
      state = state;
      discovery = discovery;
      auth_config = Auth.new digest ct_eq (some self.data_plane_api_keys);
      health_task =
          if self.health_check
          then some (record { interval = self.health_check_interval_secs; turn = health_turn })
          else none;
    }

    abbrev pub ended : Launched f digest ct_eq → Option String → Served
    ended run none = stopped run
    ended run (some e) = runtime_error (String.◌++◌ "Server error: " e)

    abbrev pub bound : String → Launched f digest ct_eq → Option String → Served
    bound addr run none = ended run (host.served run)
    bound addr run (some e) = runtime_error (invalid "Failed to bind to " addr (String.◌++◌ ": " e))

    abbrev pub listening : Router → Launched f digest ct_eq → Served
    listening self run =
        bound (py.display_addr self.host self.port) run (py.bind_addr self.host self.port)

    abbrev pub in_runtime : Router → Option String → Outcome Served
    in_runtime self (some e) =
        ret (runtime_error (String.◌++◌ "Failed to create Tokio runtime: " e))
    in_runtime self none = do
      built ← serve_state f to_lowercase self
      ret (listening self (launched self built))

    abbrev pub accepted : Router → Option String → Outcome Served
    accepted self (some e) =
        ret (value_error (invalid "Invalid host '" self.host (String.◌++◌ "': " e)))
    accepted self none = in_runtime self py.new_runtime

    unfoldable pub serve : Router → Outcome Served
    unfolding is_level serve_state
    serve self =
        if is_level (to_lowercase self.log_level)
        then accepted self (py.parse_ip self.host)
        else ret (
            value_error (
              invalid "Invalid log_level '" self.log_level
                "', expected one of: error, warn, info, debug"))
