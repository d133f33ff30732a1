-- ===== src/Startup/Python.antt =====
-- python/router-py/src/lib.rs: the Router object, and the names that it accepts.
-- `str::to_lowercase` is a parameter.
pub mod Serve
pub mod Same
pub mod Serving
pub mod Agreement
use Prim.Native.String
use tokendog.Base.{
  ℕ, String, List, [], ◌∷◌, Option, none, some, Bool, true, false, not, ◌||◌, Outcome, ret, panic,
  ◌>>=◌, ◌>>◌, assert, length, if◌then◌else◌,
}
use tokendog.Base.Text.{str_eq}
use tokendog.Config.{
  Policy, least_loaded, power_of_two, random, round_robin, session_affinity, prefix_affinity,
  load_cache_aware, PdMode, vllm, sglang,
}
use tokendog.Config.Selectors.{parse_selector}
use tokendog.Discovery.Pods.{ServiceDiscoveryConfig}
use tokendog.Policies.RoundRobin
use tokendog.Policies.LeastLoaded
use tokendog.Policies.PowerOfTwo
use tokendog.Policies.PrefixAffinity
use tokendog.Policies.LoadCacheAware
use tokendog.Policies.F64.{F64}
use tokendog.Policies.Balancer.{
  Balancer, least, two_choices, uniform, cycle, session, prefix, cache,
}
use tokendog.Server
use tokendog.Server.{AppState, is_empty, new_pd}
use tokendog.Server.Build.{new_k8s, new_k8s_pd}
use tokendog.Worker.{from_urls}
use tokendog.Startup.{Built}

-- PyResult: of an error, a ValueError, the text.
pub data PyResult (A : Type 0) : Type 0 where
  valid : A → PyResult A
  value_error : String → PyResult A

abbrev pub is_either : String → String → String → Bool
is_either a b s = str_eq s a || str_eq s b

pub record Router : Type 0 where
  pub worker_urls : List String
  pub host : String
  pub port : ℕ
  pub request_timeout_secs : ℕ
  pub log_level : String
  pub policy : String
  pub pd_mode : Option String
  pub prefill_urls : List String
  pub decode_urls : List String
  pub data_plane_api_keys : List String
  pub health_check : Bool
  pub health_check_interval_secs : ℕ
  pub log_file : Option String
  pub k8s_selector : List String
  pub k8s_namespace : Option String
  pub k8s_port : ℕ
  pub k8s_check_interval_secs : ℕ
  pub k8s_prefill_selector : List String
  pub k8s_decode_selector : List String

-- The arguments of the constructor, after the defaults of its signature.
pub record Arguments : Type 0 where
  pub worker_urls : List String
  pub host : String
  pub port : ℕ
  pub request_timeout_secs : ℕ
  pub log_level : String
  pub policy : String
  pub pd_mode : Option String
  pub prefill_urls : Option (List String)
  pub decode_urls : Option (List String)
  pub data_plane_api_keys : Option (List String)
  pub health_check : Bool
  pub health_check_interval_secs : ℕ
  pub log_file : Option String
  pub k8s_selector : Option (List String)
  pub k8s_namespace : Option String
  pub k8s_port : ℕ
  pub k8s_check_interval_secs : ℕ
  pub k8s_prefill_selector : Option (List String)
  pub k8s_decode_selector : Option (List String)

abbrev pub unwrap_or_default : Option (List String) → List String
unwrap_or_default none = []
unwrap_or_default (some urls) = urls

abbrev pub invalid : String → String → String → String
invalid before value after = String.◌++◌ before (String.◌++◌ value after)

abbrev pub invalid_policy : String → String
invalid_policy policy =
    invalid "Invalid policy '" policy
      "', expected one of: least-loaded, power-of-two, random, round-robin, session-affinity, prefix-affinity, load-cache-aware"

module _ (to_lowercase : String → String) where
  unfoldable pub validate_policy : String → PyResult String
  validate_policy policy =
      let s = to_lowercase policy in
      if is_either "least-loaded" "least_loaded" s
      then valid "least-loaded"
      else if is_either "power-of-two" "power_of_two" s
      then valid "power-of-two"
      else if str_eq s "random"
      then valid "random"
      else if is_either "round-robin" "round_robin" s
      then valid "round-robin"
      else if is_either "session-affinity" "session_affinity" s
      then valid "session-affinity"
      else if is_either "prefix-affinity" "prefix_affinity" s
      then valid "prefix-affinity"
      else if is_either "load-cache-aware" "load_cache_aware" s
      then valid "load-cache-aware"
      else value_error (invalid_policy policy)

  unfoldable pub validate_pd_mode : Option String → PyResult (Option String)
  validate_pd_mode none = valid none
  validate_pd_mode (some s) =
      if is_either "vllm" "sglang" (to_lowercase s)
      then valid (some s)
      else value_error (invalid "Invalid pd_mode '" s "', expected 'vllm' or 'sglang'")

  abbrev pub made : Arguments → PyResult String → PyResult (Option String) → PyResult Router
  made args (value_error e) pd_mode = value_error e
  made args (valid policy) (value_error e) = value_error e
  made args (valid policy) (valid pd_mode) = valid (record {
    worker_urls = args.worker_urls;
    host = args.host;
    port = args.port;
    request_timeout_secs = args.request_timeout_secs;
    log_level = args.log_level;
    policy = policy;
    pd_mode = pd_mode;
    prefill_urls = unwrap_or_default args.prefill_urls;
    decode_urls = unwrap_or_default args.decode_urls;
    data_plane_api_keys = unwrap_or_default args.data_plane_api_keys;
    health_check = args.health_check;
    health_check_interval_secs = args.health_check_interval_secs;
    log_file = args.log_file;
    k8s_selector = unwrap_or_default args.k8s_selector;
    k8s_namespace = args.k8s_namespace;
    k8s_port = args.k8s_port;
    k8s_check_interval_secs = args.k8s_check_interval_secs;
    k8s_prefill_selector = unwrap_or_default args.k8s_prefill_selector;
    k8s_decode_selector = unwrap_or_default args.k8s_decode_selector;
  })

  unfoldable pub new : Arguments → PyResult Router
  new args = made args (validate_policy args.policy) (validate_pd_mode args.pd_mode)

  -- `unreachable!()` is the panic.
  unfoldable pub pd_mode_enum : String → Outcome PdMode
  pd_mode_enum s =
      if str_eq (to_lowercase s) "vllm"
      then ret vllm
      else if str_eq (to_lowercase s) "sglang"
      then ret sglang
      else panic
