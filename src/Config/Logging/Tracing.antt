-- ===== src/Config/Logging/Tracing.antt =====
-- setup_tracing of crates/router/src/config/logging.rs and to_tracing_level of config/mod.rs. What the
-- tracing crates give is the record Tracing; `none` is an Ok, `some` the text of an Err.
use Prim.Native.String
use tokendog.Base.{ℕ, String, List, Option, none, some}
use tokendog.Config.{LogLevel, error, warn, info, debug}
use tokendog.Config.Logging.{RotatingInner, Io, done, failed, with_default_max}

pub record Tracing : Type 1 where
  pub Level : Type 0
  pub level_error : Level
  pub level_warn : Level
  pub level_info : Level
  pub level_debug : Level
  pub EnvFilter : Type 0
  pub from_env : Level → EnvFilter
  pub named : String → EnvFilter
  -- `try_init` of the subscriber with the terminal layer, and the file layer where there is a writer.
  pub try_init : EnvFilter → Option RotatingInner → Option String

-- What opening the log file is answered: its content, or the text of the error; and the last part of
-- the path.
pub record Opened : Type 0 where
  pub content : Option (List ℕ)
  pub file_name : Option String
  pub reason : String

module _ (t : Tracing) where
  unfoldable pub to_tracing_level : LogLevel → t.Level
  to_tracing_level error = t.level_error
  to_tracing_level warn = t.level_warn
  to_tracing_level info = t.level_info
  to_tracing_level debug = t.level_debug

  abbrev pub already : Option String → Option String
  already none = none
  already (some e) = some (String.◌++◌ "Subscriber already initialized: " e)

  abbrev pub with_file : t.EnvFilter → String → Io RotatingInner → Option String
  with_file env_filter reason failed = some (String.◌++◌ "Failed to create log file: " reason)
  with_file env_filter reason (done rotating) = already (t.try_init env_filter (some rotating))

  unfoldable pub setup_tracing : (String → Opened) → t.EnvFilter → Option String → Option String
  setup_tracing opened env_filter none = already (t.try_init env_filter none)
  setup_tracing opened env_filter (some path) =
      let file = opened path in
      with_file env_filter file.reason (with_default_max file.content file.file_name)
