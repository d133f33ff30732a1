-- ===== src/Discovery/Events.antt =====
-- handle_pod_event and handle_pod_deletion, and the watcher that calls them.
pub mod Tracked
use tokendog.Base.{
  ℕ, String, List, [], ◌∷◌, Option, none, some, Bool, true, false, not, ◌&&◌, any, retain,
  if◌then◌else◌,
}
use tokendog.Base.Text.{str_eq}
use tokendog.Discovery.Pods.{
  Pod, PodInfo, ServiceDiscoveryConfig, same_pod, is_healthy, worker_url, should_include, from_pod,
}
use tokendog.Discovery.Pools.{Discovery, PoolRef, select_pool, add_url, remove_url}

-- `HashSet::contains` and `HashSet::remove`.
abbrev pub is_tracked : PodInfo → List PodInfo → Bool
is_tracked pod_info tracked = any (λ p. same_pod p pod_info) tracked

abbrev pub untrack : PodInfo → List PodInfo → List PodInfo
untrack pod_info tracked = retain (λ p. not (same_pod p pod_info)) tracked

-- `tracker.iter().find(|p| p.name == … && p.uid != …)`: the first in the order of the list.
unfoldable pub find_restarted : PodInfo → List PodInfo → Option PodInfo
find_restarted pod_info [] = none
find_restarted pod_info (p ∷ tracked) =
    if str_eq p.name pod_info.name && not (str_eq p.uid pod_info.uid)
    then some p
    else find_restarted pod_info tracked

-- A healthy pod that is not tracked: evict the pod that it replaces, if any, and add its worker.
unfoldable pub track : Option PodInfo → PodInfo → ℕ → PoolRef → Discovery → Discovery
track none pod_info port target self =
    add_url (worker_url pod_info port) target (record self { tracked = pod_info ∷ self.tracked })
track (some old) pod_info port target self = add_url (worker_url pod_info port) target (
    remove_url (worker_url old port) target
      (record self { tracked = pod_info ∷ untrack old self.tracked }))

unfoldable pub handle_pod_event : PodInfo → ℕ → Bool → Discovery → Discovery
unfolding track find_restarted
handle_pod_event pod_info port pd_mode self =
    let target = select_pool pod_info pd_mode self in
    if is_healthy pod_info && not (is_tracked pod_info self.tracked)
    then track (find_restarted pod_info self.tracked) pod_info port target self
    else self

unfoldable pub handle_pod_deletion : PodInfo → ℕ → Bool → Discovery → Discovery
handle_pod_deletion pod_info port pd_mode self =
    let target = select_pool pod_info pd_mode self in
    if is_tracked pod_info self.tracked
    then remove_url (worker_url pod_info port) target
        (record self { tracked = untrack pod_info self.tracked })
    else self

-- One object of the watch stream: the filter, `from_pod`, and the handler that the deletion
-- timestamp selects.
abbrev pub is_deleted : Pod → Bool
is_deleted pod = elim pod.deletion_timestamp [ none ↦ false | some t ↦ true ]

unfoldable pub on_info : Option PodInfo → Bool → ServiceDiscoveryConfig → Discovery → Discovery
on_info none deleted config self = self
on_info (some pod_info) true config self =
    handle_pod_deletion pod_info config.port config.pd_mode self
on_info (some pod_info) false config self =
    handle_pod_event pod_info config.port config.pd_mode self

unfoldable pub watch : ServiceDiscoveryConfig → Pod → Discovery → Discovery
unfolding on_info handle_pod_event handle_pod_deletion
watch config pod self =
    if should_include pod config
    then on_info (from_pod pod (some config)) (is_deleted pod) config self
    else self
