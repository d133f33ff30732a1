-- ===== src/Discovery/Consistency/Updates.antt =====
-- Regular mode: the pool and the tracked set under any sequence of watch events and reconciliations.
use tokendog.Base.{
  ℕ, ◌≡◌, ◌≢◌, refl, ◌∙◌, sym, subst, List, [], ◌∷◌, Option, none, some, Bool, true, false, not,
  ◌&&◌, retain, Bool-cases, inl, inr, All, All-retain,
}
use tokendog.Discovery.Pods.{
  Pod, PodInfo, ServiceDiscoveryConfig, same_pod, worker_url, is_healthy, should_include, from_pod,
}
use tokendog.Discovery.Pools.{Discovery, select_pool, change_pool, regular_ref}
use tokendog.Discovery.Events.{
  is_tracked, find_restarted, track, handle_pod_event, handle_pod_deletion, is_deleted, on_info,
  watch,
}
use tokendog.Discovery.Events.Tracked.{NoName, DistinctNames, DistinctNames-retain}
use tokendog.Discovery.Reconcile.{
  build_live_pod_set, difference, compute_reconciliation_diff, remove_stale, add_missing,
  reconcile_pods,
}
use tokendog.Discovery.Consistency.{IsConsistent, OwnUrl, handle_pod_event-IsConsistent}
use tokendog.Discovery.Consistency.Deletion.{
  SameUrl, handle_pod_deletion-IsConsistent, remove_stale-handle_pod_deletion, is_tracked-untrack,
  is_tracked_self,
}
use tokendog.Discovery.Consistency.Live.{ComesFrom, All-live_from}

-- What the cluster tells: one object of the watch stream, or the answer to a list call.
pub data Update : Type 0 where
  watched : Pod → Update
  listed : Option (List Pod) → Update

abbrev pub apply : ServiceDiscoveryConfig → Update → Discovery → Discovery
apply config (watched pod) self = watch config pod self
apply config (listed items) self = reconcile_pods config items self

abbrev pub apply_all : ServiceDiscoveryConfig → List Update → Discovery → Discovery
apply_all config [] self = self
apply_all config (u ∷ updates) self = apply_all config updates (apply config u self)

-- Among the pods of `K`, different names have different URLs and one identity has one URL.
abbrev pub Apart : ℕ → (PodInfo → Type 0) → Type 0
Apart port K =
    (p q : PodInfo)
    → K p
    → K q
    → (p.name ≢ q.name → worker_url p port ≢ worker_url q port)
      × (same_pod p q ≡ true → worker_url p port ≡ worker_url q port)

abbrev pub OnlyNames : ServiceDiscoveryConfig → (PodInfo → Type 0) → Update → Type 0
OnlyNames config K (watched pod) = ComesFrom config K pod
OnlyNames config K (listed none) = Unit
OnlyNames config K (listed (some pods)) = All (ComesFrom config K) pods

module _ (config : ServiceDiscoveryConfig) (K : PodInfo → Type 0)
    (apart : Apart config.port K) where
  pub record IsSound (self : Discovery) : Type 0 where
    pub agrees : IsConsistent config.port self
    pub known : All K self.tracked

  own_url :
      (p : PodInfo) (tracked : List PodInfo) → K p → All K tracked → OwnUrl config.port p tracked
  own_url p [] k h = tt
  own_url p (q ∷ tracked) k h = ((apart q p h.0 k).0, own_url p tracked k h.1)

  same_url :
      (p : PodInfo) (tracked : List PodInfo) → K p → All K tracked → SameUrl config.port p tracked
  same_url p [] k h = tt
  same_url p (q ∷ tracked) k h = ((apart q p h.0 k).1, same_url p tracked k h.1)

  All-track :
      (o : Option PodInfo) (p : PodInfo) (self : Discovery)
      → K p
      → All K self.tracked
      → All K (track o p config.port regular_ref self).tracked
  unfolding track change_pool
  All-track none p self k h = (k, h)
  All-track (some old) p self k h = (k, All-retain K (λ q. not (same_pod q old)) self.tracked h)

  pub handle_pod_event-IsSound :
      (p : PodInfo) (self : Discovery)
      → K p
      → IsSound self
      → IsSound (handle_pod_event p config.port false self)
  unfolding handle_pod_event select_pool
  handle_pod_event-IsSound p self k s = record {
    agrees =
        handle_pod_event-IsConsistent config.port p self s.agrees
          (own_url p self.tracked k s.known);
    known = elim (Bool-cases (is_healthy p && not (is_tracked p self.tracked))) [
      | inl new ↦ rw new (All-track (find_restarted p self.tracked) p self k s.known)
      | inr skip ↦ rw skip s.known
    ];
  }

  pub handle_pod_deletion-IsSound :
      (p : PodInfo) (self : Discovery)
      → K p
      → IsSound self
      → IsSound (handle_pod_deletion p config.port false self)
  unfolding handle_pod_deletion select_pool change_pool
  handle_pod_deletion-IsSound p self k s = record {
    agrees =
        handle_pod_deletion-IsConsistent config.port p self s.agrees
          (same_url p self.tracked k s.known);
    known = elim (Bool-cases (is_tracked p self.tracked)) [
      | inl there ↦ rw there (All-retain K (λ q. not (same_pod q p)) self.tracked s.known)
      | inr skip ↦ rw skip s.known
    ];
  }

  still_tracked :
      (p : PodInfo) (self : Discovery) (stale : List PodInfo)
      → is_tracked p self.tracked ≡ true
      → NoName p.name stale
      → All (λ q. is_tracked q self.tracked ≡ true) stale
      → All (λ q. is_tracked q (handle_pod_deletion p config.port false self).tracked ≡ true) stale
  unfolding handle_pod_deletion select_pool change_pool
  still_tracked p self [] there free h = tt
  still_tracked p self (q ∷ stale) there free h = (
    rw there (is_tracked-untrack q p self.tracked free.0 ∙ h.0),
    still_tracked p self stale there free.1 h.1,
  )

  pub remove_stale-IsSound :
      (stale : List PodInfo) (self : Discovery)
      → DistinctNames stale
      → All K stale
      → All (λ q. is_tracked q self.tracked ≡ true) stale
      → IsSound self
      → IsSound (remove_stale config.port false stale self)
  unfolding remove_stale
  remove_stale-IsSound [] self names k there s = s
  remove_stale-IsSound (p ∷ stale) self names k there s =
      subst IsSound (sym (remove_stale-handle_pod_deletion config.port p stale self there.0)) (
        remove_stale-IsSound stale (handle_pod_deletion p config.port false self) names.1 k.1
          (still_tracked p self stale there.0 names.0 there.1)
          (handle_pod_deletion-IsSound p self k.0 s))

  add_missing-IsSound :
      (missing : List PodInfo) (self : Discovery)
      → All K missing
      → IsSound self
      → IsSound (add_missing config.port false missing self)
  unfolding add_missing
  add_missing-IsSound [] self k s = s
  add_missing-IsSound (p ∷ missing) self k s =
      add_missing-IsSound missing (handle_pod_event p config.port false self) k.1
        (handle_pod_event-IsSound p self k.0 s)

  module _ (regular : config.pd_mode ≡ false) where
    on_info-IsSound :
        (o : Option PodInfo) (deleted : Bool) (self : Discovery)
        → ((i : PodInfo) → o ≡ some i → K i)
        → IsSound self
        → IsSound (on_info o deleted config self)
    unfolding on_info
    on_info-IsSound none deleted self k s = s
    on_info-IsSound (some i) true self k s =
        subst (λ mode. IsSound (handle_pod_deletion i config.port mode self)) (sym regular)
          (handle_pod_deletion-IsSound i self (k i refl) s)
    on_info-IsSound (some i) false self k s =
        subst (λ mode. IsSound (handle_pod_event i config.port mode self)) (sym regular)
          (handle_pod_event-IsSound i self (k i refl) s)

    apply-IsSound :
        (u : Update) (self : Discovery)
        → OnlyNames config K u
        → IsSound self
        → IsSound (apply config u self)
    unfolding watch reconcile_pods compute_reconciliation_diff build_live_pod_set
    apply-IsSound (watched pod) self k s = elim (Bool-cases (should_include pod config)) [
      | inl included ↦
          rw included (on_info-IsSound (from_pod pod (some config)) (is_deleted pod) self k s)
      | inr out ↦ rw out s
    ]
    apply-IsSound (listed none) self k s = s
    apply-IsSound (listed (some pods)) self k s =
        let live = build_live_pod_set pods config in
        let gone = difference self.tracked live in
        let missing = retain is_healthy (difference live self.tracked) in
        subst
          (λ mode.
            IsSound
              (add_missing config.port mode missing (remove_stale config.port mode gone self)))
          (sym regular)
          (add_missing-IsSound (retain is_healthy (difference live self.tracked))
            (remove_stale config.port false gone self)
            (All-retain K is_healthy (difference live self.tracked) (
              All-retain K (λ p. not (is_tracked p self.tracked)) live
                (All-live_from config K pods [] k tt)))
            (remove_stale-IsSound gone self
              (DistinctNames-retain (λ p. not (is_tracked p live)) self.tracked s.agrees.names)
              (All-retain K (λ p. not (is_tracked p live)) self.tracked s.known)
              (All-retain (λ q. is_tracked q self.tracked ≡ true) (λ p. not (is_tracked p live))
                self.tracked (is_tracked_self self.tracked))
              s))

    -- In regular mode, if every pod that the cluster tells of is in `K`, where different names have
    -- different URLs and one identity has one URL, then after any sequence of watch events and
    -- reconciliations, in any order and starting from a state in agreement whose tracked pods are in
    -- `K`, the pool and the tracked set agree.
    pub apply_all-IsConsistent :
        (updates : List Update) (self : Discovery)
        → All (OnlyNames config K) updates
        → All K self.tracked
        → IsConsistent config.port self
        → IsConsistent config.port (apply_all config updates self)
    apply_all-IsConsistent updates self k known agrees =
        run updates self k (record { agrees = agrees; known = known })
      where
        run :
            (updates : List Update) (self : Discovery)
            → All (OnlyNames config K) updates
            → IsSound self
            → IsConsistent config.port (apply_all config updates self)
        run [] self k s = s.agrees
        run (u ∷ updates) self k s =
            run updates (apply config u self) k.1 (apply-IsSound u self k.0 s)
