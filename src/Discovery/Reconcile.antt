-- ===== src/Discovery/Reconcile.antt =====
-- build_live_pod_set, compute_reconciliation_diff and reconcile_pods.
use tokendog.Base.{ℕ, List, [], ◌∷◌, Option, none, some, Bool, not, retain, if◌then◌else◌}
use tokendog.Discovery.Pods.{
  Pod, PodInfo, ServiceDiscoveryConfig, is_healthy, worker_url, should_include, from_pod,
}
use tokendog.Discovery.Pools.{Discovery, select_pool, remove_url}
use tokendog.Discovery.Events.{is_tracked, untrack, is_deleted, handle_pod_event}

-- `HashSet::insert`: an element that is there already stays.
abbrev pub insert_pod : PodInfo → List PodInfo → List PodInfo
insert_pod info set = if is_tracked info set then set else info ∷ set

abbrev pub insert_some : Option PodInfo → List PodInfo → List PodInfo
insert_some none set = set
insert_some (some info) set = insert_pod info set

unfoldable pub live_from : ServiceDiscoveryConfig → List Pod → List PodInfo → List PodInfo
live_from config [] live_pods = live_pods
live_from config (pod ∷ pods) live_pods = live_from config pods (
    if not (should_include pod config)
    then live_pods
    else if is_deleted pod
    then live_pods
    else insert_some (from_pod pod (some config)) live_pods)

unfoldable pub build_live_pod_set : List Pod → ServiceDiscoveryConfig → List PodInfo
unfolding live_from
build_live_pod_set pod_list config = live_from config pod_list []

-- `a.difference(b)`.
abbrev pub difference : List PodInfo → List PodInfo → List PodInfo
difference a b = retain (λ p. not (is_tracked p b)) a

unfoldable pub compute_reconciliation_diff :
    List PodInfo → List PodInfo → List PodInfo × List PodInfo
compute_reconciliation_diff tracked live =
    (difference tracked live, retain is_healthy (difference live tracked))

unfoldable pub remove_stale : ℕ → Bool → List PodInfo → Discovery → Discovery
remove_stale port pd_mode [] self = self
remove_stale port pd_mode (pod_info ∷ stale) self =
    let target = select_pool pod_info pd_mode self in
    let removed = remove_url (worker_url pod_info port) target self in
    remove_stale port pd_mode stale (record removed { tracked = untrack pod_info removed.tracked })

unfoldable pub add_missing : ℕ → Bool → List PodInfo → Discovery → Discovery
add_missing port pd_mode [] self = self
add_missing port pd_mode (pod_info ∷ missing) self =
    add_missing port pd_mode missing (handle_pod_event pod_info port pd_mode self)

-- `listed` is the answer of the API server to the list call, or `none` on an error. The early
-- return on two empty lists is the two loops over them.
unfoldable pub reconcile_pods : ServiceDiscoveryConfig → Option (List Pod) → Discovery → Discovery
unfolding compute_reconciliation_diff remove_stale add_missing
reconcile_pods config none self = self
reconcile_pods config (some items) self =
    let (stale, missing) =
      compute_reconciliation_diff self.tracked (build_live_pod_set items config) in
    add_missing config.port config.pd_mode missing
      (remove_stale config.port config.pd_mode stale self)
