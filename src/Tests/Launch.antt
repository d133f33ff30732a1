-- ===== src/Tests/Launch.antt =====
-- A router that both entry points launch, on a host where every call is answered well.
use Prim.Native.String
use tokendog.Base.{ℕ, ◌≡◌, refl, String, ◌∷◌, [], Option, none, some, if◌then◌else◌, ◌>>=◌, ◌==◌}
use tokendog.Base.Text.{str_eq}
use tokendog.Config.{Policy, PdMode, info}
use tokendog.Config.Logging.Tracing.{Tracing, setup_tracing}
use tokendog.Startup.Launch.{Host, main}
use tokendog.Startup.Python.Same.{policy_name, IsMode, config_of}
use tokendog.Startup.Python.Serving.{PyHost, serve}
use tokendog.Startup.Python.Agreement.{as_main, serve-main}
use tokendog.Tests.Samples.{tenths}
use tokendog.Tests.Startup.{lowered, arguments, router, accepted}

abbrev tracing : Tracing
tracing = record {
  Level = ℕ;
  level_error = 1;
  level_warn = 2;
  level_info = 3;
  level_debug = 4;
  EnvFilter = String;
  from_env = λ level. if level == 3 then "info" else "error";
  named = λ level. level;
  try_init = λ env_filter writer. none;
}

-- A digest for the tests.
abbrev digest : String → String
digest key = String.◌++◌ "hash of " key

abbrev host : Host tenths digest str_eq
host = record {
  tracing = tracing;
  opened = λ path. record { content = some (1 ∷ []); file_name = some path; reason = "" };
  display = λ port. if port == 30000 then "30000" else "8000";
  bind = λ addr. if str_eq addr "0.0.0.0:30000" then none else some "address in use";
  served = λ run. none;
}

abbrev python : PyHost
python = record {
  parse_ip = λ text. if str_eq text "0.0.0.0" then none else some "invalid IP address syntax";
  new_runtime = none;
  bind_addr = λ text port. if port == 30000 then none else some "address in use";
  display_addr = λ text port. "0.0.0.0:30000";
}

serve-main_example :
    (policy : Policy) × (mode : Option PdMode) × (router.policy ≡ policy_name policy)
    × IsMode lowered router.pd_mode mode
    × ((serve tenths digest str_eq host python lowered router >>= as_main tenths digest str_eq)
        ≡ main tenths digest str_eq host (config_of lowered info policy mode router))
unfolding setup_tracing
serve-main_example =
    serve-main tenths digest str_eq host python lowered info arguments router accepted refl refl
      refl refl refl
