-- ===== src/Discovery/Watcher.antt =====
-- The watcher loop of start_service_discovery in crates/router/src/service_discovery.rs. A run of the
-- stream yields pods and then ends, with an error or without one. A wait is a number of seconds.
pub mod Backoff
use tokendog.Base.{ℕ, ◌*◌, min, List, [], ◌∷◌, ◌++◌, Bool, true, false, if◌then◌else◌}
use tokendog.Discovery.Pods.{Pod, ServiceDiscoveryConfig}
use tokendog.Discovery.Pools.{Discovery}
use tokendog.Discovery.Events.{watch}

pub record StreamRun : Type 0 where
  pub pods : List Pod
  pub failed : Bool

-- What the task keeps, with the waits that it has made.
pub record Watcher : Type 0 where
  pub discovery : Discovery
  pub retry_delay : ℕ
  pub waits : List ℕ

abbrev pub max_retry_delay : ℕ
max_retry_delay = 300

-- `try_for_each` over the pods.
unfoldable pub watch_all : ServiceDiscoveryConfig → List Pod → Discovery → Discovery
watch_all config [] self = self
watch_all config (pod ∷ pods) self = watch_all config pods (watch config pod self)

-- `match watcher_ok`: after an error the task waits, and the next delay is twice as long.
abbrev pub retried : Bool → Watcher → Watcher
retried false self = record self { retry_delay = 1 }
retried true self = record self {
  retry_delay = min (self.retry_delay * 2) max_retry_delay;
  waits = self.waits ++ self.retry_delay ∷ [];
}

-- One turn of the loop.
unfoldable pub turn : ServiceDiscoveryConfig → StreamRun → Watcher → Watcher
turn config run self =
    let seen = record self { discovery = watch_all config run.pods self.discovery } in
    let after = retried run.failed seen in
    record after { waits = after.waits ++ config.check_interval ∷ [] }

unfoldable pub start : Discovery → Watcher
start discovery = record { discovery = discovery; retry_delay = 1; waits = [] }

unfoldable pub watcher_loop : ServiceDiscoveryConfig → List StreamRun → Watcher → Watcher
watcher_loop config [] self = self
watcher_loop config (run ∷ runs) self = watcher_loop config runs (turn config run self)
