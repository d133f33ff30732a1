-- ===== src/Discovery/Supervisor.antt =====
-- The task of start_service_discovery that reconciles periodically, and its supervisor. A run of the
-- task is the answers to its list calls; it ends only where it panics.
pub mod Told
use tokendog.Base.{
  ℕ, ◌≡◌, refl, ap, sym, ◌∙◌, List, [], ◌∷◌, ◌++◌, map, Option, Bool, Bool-cases, inl, inr,
  if◌then◌else◌,
}
use tokendog.Discovery.Pods.{Pod, ServiceDiscoveryConfig}
use tokendog.Discovery.Pools.{Discovery}
use tokendog.Discovery.Reconcile.{reconcile_pods}

pub record TaskRun : Type 0 where
  pub answers : List (Option (List Pod))
  pub panicked : Bool

-- The discovery, with the waits before the restarts.
pub record Supervisor : Type 0 where
  pub discovery : Discovery
  pub waits : List ℕ

-- One reconciliation for each tick of the interval.
unfoldable pub reconcile_all :
    ServiceDiscoveryConfig → List (Option (List Pod)) → Discovery → Discovery
reconcile_all config [] self = self
reconcile_all config (items ∷ answers) self =
    reconcile_all config answers (reconcile_pods config items self)

-- After a panic the supervisor waits and starts the task again; otherwise it ends.
unfoldable pub supervise : ServiceDiscoveryConfig → List TaskRun → Supervisor → Supervisor
unfolding reconcile_all
supervise config [] self = self
supervise config (run ∷ runs) self =
    let done = record self { discovery = reconcile_all config run.answers self.discovery } in
    let again =
      supervise config runs (record done { waits = done.waits ++ config.check_interval ∷ [] }) in
    if run.panicked then again else done
