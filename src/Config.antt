-- ===== src/Config.antt =====
-- crates/router/src/config/mod.rs: the enums of the command line, and the label selectors.
pub mod Auth
pub mod Logging
pub mod Selectors
use tokendog.Base.{ℕ, String, List, [], ◌∷◌, Option, Bool, true, false, not, ◌||◌}

pub data Policy : Type 0 where
  least_loaded power_of_two random round_robin session_affinity prefix_affinity load_cache_aware :
      Policy

pub data PdMode : Type 0 where
  vllm sglang : PdMode

pub data LogLevel : Type 0 where
  error warn info debug : LogLevel

-- The parsed command line.
pub record Config : Type 0 where
  pub host : String
  pub port : ℕ
  pub worker_urls : List String
  pub request_timeout_secs : ℕ
  pub policy : Policy
  pub log_level : LogLevel
  pub pd_mode : Option PdMode
  pub prefill_urls : List String
  pub decode_urls : List String
  pub data_plane_api_keys : List String
  pub health_check : Bool
  pub health_check_interval_secs : ℕ
  pub log_file : Option String
  pub k8s_namespace : Option String
  pub k8s_selector : List String
  pub k8s_prefill_selector : List String
  pub k8s_decode_selector : List String
  pub k8s_port : ℕ
  pub k8s_check_interval_secs : ℕ

abbrev is_empty : List String → Bool
is_empty [] = true
is_empty (x ∷ xs) = false

unfoldable pub has_k8s_enabled : Config → Bool
has_k8s_enabled self =
    not (is_empty self.k8s_selector)
    || not (is_empty self.k8s_prefill_selector)
    || not (is_empty self.k8s_decode_selector)
