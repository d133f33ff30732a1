-- ===== src/Routes/Pd/Bootstrap.antt =====
-- The SGLang helpers of crates/router/src/routes/prefill.rs.

use Prim.Native.String
use tokendog.Base.{ℕ, zero, suc, ◌+◌, ◌^◌, String, Option, none, some, ◌==◌, if◌then◌else◌, ◌-◌}
use tokendog.Base.Int.{ℤ, pos, negsuc}
use tokendog.Config.Auth.{strip_prefix}
use tokendog.Discovery.Pods.{decimal}
use tokendog.Routes.Pd.{Got, got, gone, Url}

abbrev pub default_bootstrap_port : ℕ
default_bootstrap_port = 8998

abbrev pub chars : String → ℕ
chars String.[] = 0
chars (String.◌∷◌ c s) = suc (chars s)

-- `trim_start_matches`: a prefix is taken off as often as it is there. A character at least goes each
-- time, so the number of characters is enough fuel.
unfoldable pub trim_from : ℕ → String → String → String
trim_from zero prefix s = s
trim_from (suc fuel) prefix s = elim (strip_prefix prefix s) [
  | none ↦ s
  | some rest ↦ trim_from fuel prefix rest
]

abbrev pub trim_start_matches : String → String → String
trim_start_matches prefix s = trim_from (chars s) prefix s

abbrev unwrap_or {ℓ} : {A : Type ℓ} → Option A → A → A
unwrap_or none a = a
unwrap_or (some b) a = b

-- `host:port`, or the URL without its scheme where it does not parse.
unfoldable pub extract_bootstrap_host : (String → Got Url) → String → String
extract_bootstrap_host parse_url worker_url = elim (parse_url worker_url) [
  | got parsed ↦
      String.◌++◌ (unwrap_or parsed.host_str "127.0.0.1")
        (String.◌++◌ ":" (decimal 4 (unwrap_or parsed.port 8000)))
  | gone e ↦ trim_start_matches "https://" (trim_start_matches "http://" worker_url)
]

-- `i64::abs`, which leaves the lowest i64 as it is in a release build.
abbrev pub abs_i64 : ℤ → ℤ
abs_i64 (pos n) = pos n
abs_i64 (negsuc n) = if n == 2 ^ 63 - 1 then negsuc n else pos (n + 1)

-- `drawn` is what `rand::random::<i64>()` gives.
unfoldable pub build_sglang_bootstrap_params :
    (String → Got Url) → ℤ → String → ℕ → String × (ℕ × ℤ)
build_sglang_bootstrap_params parse_url drawn prefill_url port =
    (extract_bootstrap_host parse_url prefill_url, (port, abs_i64 drawn))
