-- ===== src/Startup/Python/Agreement.antt =====
-- The Python bindings run what the command line runs.
use Prim.Native.String
use tokendog.Base.{
  String, ◌≡◌, refl, Option, none, some, Bool, true, Outcome, ret, panic, ◌>>=◌, ◌>>◌, assert, ◌∙◌,
  ap,
}
use tokendog.Config.{Policy, PdMode, LogLevel, error, warn, info, debug}
use tokendog.Policies.F64.{F64}
use tokendog.Startup.{Built, build_state, health_round}
use tokendog.Startup.Launch
use tokendog.Startup.Launch.{Launched, Host, is_ok, listen, listen_addr, tracing_of, main}
use tokendog.Startup.Python.{Router, Arguments, valid, new}
use tokendog.Startup.Python.Same.{policy_name, IsMode, config_of, serve_state-build_state}
use tokendog.Startup.Python.Serving.{
  PyHost, Served, stopped, value_error, runtime_error, is_level, health_turn, listening, launched,
  bound, ended, serve,
}

abbrev pub level_name : LogLevel → String
level_name error = "error"
level_name warn = "warn"
level_name info = "info"
level_name debug = "debug"

is_level-level_name : (level : LogLevel) → is_level (level_name level) ≡ true
unfolding is_level
is_level-level_name error = refl
is_level-level_name warn = refl
is_level-level_name info = refl
is_level-level_name debug = refl

module _ (f : F64) {D : Type 0} (digest : String → D) (ct_eq : D → D → Bool) where
  -- What main comes to where `serve` ends with this: an exception is a panic there.
  abbrev pub as_main : Served f digest ct_eq → Outcome (Launched f digest ct_eq)
  as_main (stopped run) = ret run
  as_main (value_error e) = panic
  as_main (runtime_error e) = panic

module _ (f : F64) {D : Type 0} (digest : String → D) (ct_eq : D → D → Bool)
    (host : Host f digest ct_eq) (py : PyHost) (to_lowercase : String → String) where
  as_main-ended :
      (run : Launched f digest ct_eq) (answer : Option String)
      → as_main f digest ct_eq (ended f digest ct_eq host py to_lowercase run answer)
        ≡ (assert (is_ok f digest ct_eq answer) >> ret run)
  as_main-ended run none = refl
  as_main-ended run (some e) = refl

  as_main-bound :
      (text : String) (run : Launched f digest ct_eq) (answer : Option String)
      → as_main f digest ct_eq (bound f digest ct_eq host py to_lowercase text run answer) ≡ (do
        assert (is_ok f digest ct_eq answer)
        assert (is_ok f digest ct_eq (host.served run))
        ret run)
  as_main-bound text run none = as_main-ended run (host.served run)
  as_main-bound text run (some e) = refl

  -- What comes after the state is built.
  as_main-listening :
      (level : LogLevel) (policy : Policy) (mode : Option PdMode) (self : Router)
      → host.bind (String.◌++◌ self.host (String.◌++◌ ":" (host.display self.port)))
        ≡ py.bind_addr self.host self.port
      → (built : Outcome (Built f))
      → let config = config_of to_lowercase level policy mode self in
        ((do
          b ← built
          ret (
              listening f digest ct_eq host py to_lowercase self
                (launched f digest ct_eq host py to_lowercase self b)))
          >>= as_main f digest ct_eq)
        ≡ (do
          b ← built
          listen f digest ct_eq host
              (listen_addr f digest ct_eq host config)
              (Launch.launched f digest ct_eq host config b))
  unfolding listen listen_addr health_turn health_round
  as_main-listening level policy mode self same panic = refl
  as_main-listening level policy mode self same (ret b) = rw same (
      as_main-bound (py.display_addr self.host self.port)
        (launched f digest ct_eq host py to_lowercase self b) (py.bind_addr self.host self.port))

  -- If the constructor accepts the arguments, the log level is the name of one, the host is an IP address
  -- with the same socket as the text that main binds, a runtime can be made and the tracing of main is
  -- installed, then `serve` stops with what main runs from a command line with the same values, the
  -- state, the service discovery, the authentication and the health check task, and it panics or
  -- raises an exception exactly where main panics.
  pub serve-main :
      (level : LogLevel) (args : Arguments) (self : Router)
      → new to_lowercase args ≡ valid self
      → to_lowercase self.log_level ≡ level_name level
      → py.parse_ip self.host ≡ none
      → py.new_runtime ≡ none
      → host.bind (String.◌++◌ self.host (String.◌++◌ ":" (host.display self.port)))
        ≡ py.bind_addr self.host self.port
      → is_ok f digest ct_eq (tracing_of f digest ct_eq host level self.log_file) ≡ true
      → (policy : Policy) × (mode : Option PdMode) × (self.policy ≡ policy_name policy)
        × IsMode to_lowercase self.pd_mode mode
        × ((serve f digest ct_eq host py to_lowercase self >>= as_main f digest ct_eq)
            ≡ main f digest ct_eq host (config_of to_lowercase level policy mode self))
  unfolding serve main
  serve-main level args self made named parsed runtime same traced =
      let (policy, mode, called, is_mode, states) =
        serve_state-build_state to_lowercase f level args self made in
      let begin : is_level (to_lowercase self.log_level) ≡ true =
        ap is_level named ∙ is_level-level_name level in
      (
        policy,
        mode,
        called,
        is_mode,
        rw (begin, parsed, runtime, states, traced)
            (as_main-listening level policy mode self same
              (build_state f (config_of to_lowercase level policy mode self))),
      )
