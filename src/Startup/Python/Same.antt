-- ===== src/Startup/Python/Same.antt =====
-- The Python bindings start the router that the command line starts.
use tokendog.Base.{
  ℕ, String, ◌≡◌, refl, ap, sym, Option, none, some, Bool, true, false, ret, panic, length,
  if◌then◌else◌, ◌||◌,
}
use tokendog.Base.Text.{str_eq}
use tokendog.Config.{
  Config, LogLevel, Policy, least_loaded, power_of_two, random, round_robin, session_affinity,
  prefix_affinity, load_cache_aware, PdMode, vllm, sglang, has_k8s_enabled,
}
use tokendog.Policies.F64.{F64}
use tokendog.Policies.Balancer
use tokendog.Startup
use tokendog.Startup.{build_state}
use tokendog.Startup.Python.{
  PyResult, valid, value_error, Router, Arguments, made, is_either, invalid_policy, validate_policy,
  validate_pd_mode, new, pd_mode_enum,
}
use tokendog.Startup.Python.Serve.{
  policy_type, is_k8s, make_policy, k8s_state, static_state, serve_state,
}

-- The normalized name of a policy.
abbrev pub policy_name : Policy → String
policy_name least_loaded = "least-loaded"
policy_name power_of_two = "power-of-two"
policy_name random = "random"
policy_name round_robin = "round-robin"
policy_name session_affinity = "session-affinity"
policy_name prefix_affinity = "prefix-affinity"
policy_name load_cache_aware = "load-cache-aware"

-- Each name makes the policy that the command line makes.
make_policy-policy_name :
    (f : F64) (p : Policy) (n : ℕ) → make_policy f (policy_name p) n ≡ Balancer.make_policy f p n
unfolding make_policy Balancer.make_policy
make_policy-policy_name f least_loaded n = refl
make_policy-policy_name f power_of_two n = refl
make_policy-policy_name f random n = refl
make_policy-policy_name f round_robin n = refl
make_policy-policy_name f session_affinity n = refl
make_policy-policy_name f prefix_affinity n = refl
make_policy-policy_name f load_cache_aware n = refl

policy_type-policy_name : (p : Policy) → policy_type (policy_name p) ≡ p
unfolding policy_type
policy_type-policy_name least_loaded = refl
policy_type-policy_name power_of_two = refl
policy_type-policy_name random = refl
policy_type-policy_name round_robin = refl
policy_type-policy_name session_affinity = refl
policy_type-policy_name prefix_affinity = refl
policy_type-policy_name load_cache_aware = refl

valid_eq : {A : Type 0} {a b : A} → valid a ≡ valid b → a ≡ b
valid_eq h = cc

error_not_valid : {A : Type 0} (m : String) {a : A} → value_error m ≡ valid a → ⊥
error_not_valid m h = cc

-- One arm of the match on the name.
arm :
    (p : Policy) (b : Bool) (rest : PyResult String) {q : String}
    → ((rest ≡ valid q) → (p' : Policy) × (q ≡ policy_name p'))
    → (if b then valid (policy_name p) else rest) ≡ valid q
    → (p' : Policy) × (q ≡ policy_name p')
arm p true rest next e = (p, sym (valid_eq e))
arm p false rest next e = next e

module _ (to_lowercase : String → String) where
  validate_policy-policy_name :
      (policy q : String)
      → validate_policy to_lowercase policy ≡ valid q
      → (p : Policy) × (q ≡ policy_name p)
  unfolding validate_policy
  validate_policy-policy_name policy q =
      let s = to_lowercase policy in
      arm least_loaded (is_either "least-loaded" "least_loaded" s) _ (
        arm power_of_two (is_either "power-of-two" "power_of_two" s) _ (
          arm random (str_eq s "random") _ (
            arm round_robin (is_either "round-robin" "round_robin" s) _ (
              arm session_affinity (is_either "session-affinity" "session_affinity" s) _ (
                arm prefix_affinity (is_either "prefix-affinity" "prefix_affinity" s) _ (
                  arm load_cache_aware (is_either "load-cache-aware" "load_cache_aware" s)
                    (value_error (invalid_policy policy)) (λ e. absurd (error_not_valid _ e))))))))

  -- The mode that an accepted `pd_mode` names.
  abbrev pub IsMode : Option String → Option PdMode → Type 0
  IsMode none none = Unit
  IsMode (some s) (some mode) = pd_mode_enum to_lowercase s ≡ ret mode
  IsMode _ _ = ⊥

  named :
      (a b : Bool) (s m : String) (after : Option String)
      → (if a || b then valid (some s) else value_error m) ≡ valid after
      → (after ≡ some s)
        × (mode : PdMode) × ((if a then ret vllm else if b then ret sglang else panic) ≡ ret mode)
  named true b s m after e = (sym (valid_eq e), vllm, refl)
  named false true s m after e = (sym (valid_eq e), sglang, refl)
  named false false s m after e = absurd (error_not_valid m e)

  validate_pd_mode-IsMode :
      (before after : Option String)
      → validate_pd_mode to_lowercase before ≡ valid after
      → (mode : Option PdMode) × IsMode after mode
  unfolding validate_pd_mode pd_mode_enum
  validate_pd_mode-IsMode none none e = (none, tt)
  validate_pd_mode-IsMode none (some s) e = cc
  validate_pd_mode-IsMode (some s) after e =
      let (same, mode, found) =
        named (str_eq (to_lowercase s) "vllm") (str_eq (to_lowercase s) "sglang") s _ after e in
      (some mode, rw same found)

  made-valid :
      (args : Arguments) (policy : PyResult String) (pd_mode : PyResult (Option String))
      (self : Router)
      → made to_lowercase args policy pd_mode ≡ valid self
      → (policy ≡ valid self.policy) × (pd_mode ≡ valid self.pd_mode)
  made-valid args (value_error e) pd_mode self h = absurd (error_not_valid e h)
  made-valid args (valid policy) (value_error e) self h = absurd (error_not_valid e h)
  made-valid args (valid policy) (valid pd_mode) self h =
      let same = valid_eq h in (ap (λ r. valid r.policy) same, ap (λ r. valid r.pd_mode) same)

  -- The command line that says the same as a Router object.
  abbrev pub config_of : LogLevel → Policy → Option PdMode → Router → Config
  config_of level policy mode self = record {
    host = self.host;
    port = self.port;
    worker_urls = self.worker_urls;
    request_timeout_secs = self.request_timeout_secs;
    policy = policy;
    log_level = level;
    pd_mode = mode;
    prefill_urls = self.prefill_urls;
    decode_urls = self.decode_urls;
    data_plane_api_keys = self.data_plane_api_keys;
    health_check = self.health_check;
    health_check_interval_secs = self.health_check_interval_secs;
    log_file = self.log_file;
    k8s_namespace = self.k8s_namespace;
    k8s_selector = self.k8s_selector;
    k8s_prefill_selector = self.k8s_prefill_selector;
    k8s_decode_selector = self.k8s_decode_selector;
    k8s_port = self.k8s_port;
    k8s_check_interval_secs = self.k8s_check_interval_secs;
  }

  module _ (f : F64) (level : LogLevel) (policy : Policy) (self : Router)
      (called : self.policy ≡ policy_name policy) where
    k8s_same :
        (pd_mode : Option String) (mode : Option PdMode)
        → IsMode pd_mode mode
        → k8s_state f to_lowercase self pd_mode
          ≡ Startup.k8s_state f (config_of level policy mode self) mode
    unfolding k8s_state Startup.k8s_state
    k8s_same none none is_mode = rw (called, policy_type-policy_name policy)
    k8s_same none (some m) is_mode = elim is_mode [ ]
    k8s_same (some s) none is_mode = elim is_mode [ ]
    k8s_same (some s) (some m) is_mode = rw (called, policy_type-policy_name policy, is_mode)

    static_same :
        (pd_mode : Option String) (mode : Option PdMode)
        → IsMode pd_mode mode
        → static_state f to_lowercase self pd_mode
          ≡ Startup.static_state f (config_of level policy mode self) mode
    unfolding static_state Startup.static_state
    static_same none none is_mode =
        rw (called, make_policy-policy_name f policy (length self.worker_urls))
    static_same none (some m) is_mode = elim is_mode [ ]
    static_same (some s) none is_mode = elim is_mode [ ]
    static_same (some s) (some m) is_mode = rw (
      called,
      make_policy-policy_name f policy (length self.prefill_urls),
      make_policy-policy_name f policy (length self.decode_urls),
      is_mode,
    )

    state_same :
        (mode : Option PdMode)
        → IsMode self.pd_mode mode
        → serve_state f to_lowercase self ≡ build_state f (config_of level policy mode self)
    unfolding serve_state build_state has_k8s_enabled is_k8s
    state_same mode is_mode =
        rw (k8s_same self.pd_mode mode is_mode, static_same self.pd_mode mode is_mode)

  -- A Router object that its constructor accepts has the normalized name of a policy and a PD mode
  -- that is known, and `serve` builds the state, and the configuration of the service discovery,
  -- that main.rs builds from a command line with the same values: it panics where that one panics.
  pub serve_state-build_state :
      (f : F64) (level : LogLevel) (args : Arguments) (self : Router)
      → new to_lowercase args ≡ valid self
      → (policy : Policy) × (mode : Option PdMode) × (self.policy ≡ policy_name policy)
        × IsMode self.pd_mode mode
        × (serve_state f to_lowercase self ≡ build_state f (config_of level policy mode self))
  unfolding new
  serve_state-build_state f level args self accepted =
      let (named_policy, named_mode) = made-valid args _ _ self accepted in
      let (policy, called) = validate_policy-policy_name args.policy self.policy named_policy in
      let (mode, is_mode) = validate_pd_mode-IsMode args.pd_mode self.pd_mode named_mode in
      (policy, mode, called, is_mode, state_same f level policy self called mode is_mode)
