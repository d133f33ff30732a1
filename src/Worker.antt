-- ===== src/Worker.antt =====
-- crates/router/src/worker: a worker with its health flag, and the health checks. The HTTP client
-- is no code of the repository: `get url` is the status of its answer, or `none` on an error.
pub mod Health
use Prim.Native.String
use tokendog.Base.{
  ℕ, ◌+◌, String, List, [], ◌∷◌, Option, none, some, Bool, true, false, ◌==◌, map, if◌then◌else◌,
}
use tokendog.Base.Text.{trim_end_matches}

pub record Worker : Type 0 where
  pub url : String
  pub healthy : Bool

-- A worker starts healthy.
abbrev pub new : String → Worker
new url = record { url = url; healthy = true }

abbrev pub from_urls : List String → List Worker
from_urls urls = map new urls

abbrev pub is_healthy : Worker → Bool
is_healthy self = self.healthy

abbrev pub set_healthy : Bool → Worker → Worker
set_healthy healthy self = record self { healthy = healthy }

-- `workers.iter().enumerate().filter(..).map(..).collect()`, with the enumeration at `i`.
unfoldable pub healthy_from : ℕ → List Worker → List (ℕ × String)
healthy_from i [] = []
healthy_from i (w ∷ workers) =
    let rest = healthy_from (i + 1) workers in if is_healthy w then (i, w.url) ∷ rest else rest

abbrev pub healthy_worker_urls : List Worker → List (ℕ × String)
healthy_worker_urls workers = healthy_from 0 workers

-- `StatusCode::OK`.
abbrev is_ok : Option ℕ → Bool
is_ok none = false
is_ok (some status) = status == 200

module _ (get : String → Option ℕ) where
  unfoldable pub check_worker_health : String → Bool
  check_worker_health url = is_ok (get (String.◌++◌ (trim_end_matches b'/' url) "/health"))

  -- One round: each flag is set to the outcome of the probe. The probes are one after the other.
  unfoldable pub run_health_checks : List Worker → List Worker
  run_health_checks [] = []
  run_health_checks (w ∷ workers) =
      set_healthy (check_worker_health w.url) w ∷ run_health_checks workers

-- The body of `GET /health`, whose status is always 200.
pub record WorkerStatus : Type 0 where
  pub url : String
  pub healthy : Bool

pub record HealthResponse : Type 0 where
  pub status : String
  pub workers : List WorkerStatus

abbrev worker_status : Worker → WorkerStatus
worker_status w = record { url = w.url; healthy = is_healthy w }

unfoldable pub health_handler : List Worker → ℕ × HealthResponse
health_handler workers = (200, record { status = "ok"; workers = map worker_status workers })
