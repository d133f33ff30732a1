-- ===== src/Discovery/Consistency/Live.antt =====
-- The live set of a reconciliation holds pods that the cluster told of.
use tokendog.Base.{◌≡◌, refl, List, [], ◌∷◌, Option, none, some, Bool-cases, inl, inr, All}
use tokendog.Discovery.Pods.{Pod, PodInfo, ServiceDiscoveryConfig, should_include, from_pod}
use tokendog.Discovery.Events.{is_tracked, is_deleted}
use tokendog.Discovery.Reconcile.{insert_pod, insert_some, live_from}

abbrev pub ComesFrom : ServiceDiscoveryConfig → (PodInfo → Type 0) → Pod → Type 0
ComesFrom config K pod = (i : PodInfo) → from_pod pod (some config) ≡ some i → K i

module _ (config : ServiceDiscoveryConfig) (K : PodInfo → Type 0) where
  All-insert_pod :
      (p : PodInfo) (live : List PodInfo) → K p → All K live → All K (insert_pod p live)
  All-insert_pod p live k h = elim (Bool-cases (is_tracked p live)) [
    | inl there ↦ rw there h
    | inr new ↦ rw new (k, h)
  ]

  live_next :
      (pod : Pod) (live : List PodInfo) (o : Option PodInfo)
      → ((i : PodInfo) → o ≡ some i → K i)
      → All K live
      → All K (insert_some o live)
  live_next pod live none k h = h
  live_next pod live (some i) k h = All-insert_pod i live (k i refl) h

  pub All-live_from :
      (pods : List Pod) (live : List PodInfo)
      → All (ComesFrom config K) pods
      → All K live
      → All K (live_from config pods live)
  unfolding live_from
  All-live_from [] live k h = h
  All-live_from (pod ∷ pods) live k h =
      All-live_from pods _ k.1 (elim (Bool-cases (should_include pod config)) [
        | inr out ↦ rw out h
        | inl included ↦ elim (Bool-cases (is_deleted pod)) [
          | inl gone ↦ rw (included, gone) h
          | inr stays ↦ rw (included, stays) (live_next pod live (from_pod pod (some config)) k.0 h)
        ]
      ])
