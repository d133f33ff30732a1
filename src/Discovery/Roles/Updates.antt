-- ===== src/Discovery/Roles/Updates.antt =====
-- PD mode: each pool and the tracked pods of its role under any sequence of watch events and
-- reconciliations.
use tokendog.Base.{
  ◌≡◌, refl, sym, subst, List, [], ◌∷◌, Option, none, some, Bool, true, false, not, retain,
  Bool-cases, inl, inr, All, All-retain,
}
use tokendog.Discovery.Pods.{PodInfo, ServiceDiscoveryConfig, is_healthy, should_include, from_pod}
use tokendog.Discovery.Pools.{Discovery, PoolRef, regular_ref}
use tokendog.Discovery.Events.{
  is_tracked, handle_pod_event, handle_pod_deletion, is_deleted, on_info, watch,
}
use tokendog.Discovery.Events.Tracked.{DistinctNames-retain}
use tokendog.Discovery.Reconcile.{
  build_live_pod_set, difference, compute_reconciliation_diff, remove_stale, add_missing,
  reconcile_pods,
}
use tokendog.Discovery.Consistency.{IsConsistent}
use tokendog.Discovery.Consistency.Deletion.{is_tracked_self}
use tokendog.Discovery.Consistency.Live.{All-live_from}
use tokendog.Discovery.Consistency.Updates.{
  Update, watched, listed, apply, apply_all, Apart, OnlyNames, IsSound, handle_pod_event-IsSound,
  handle_pod_deletion-IsSound, remove_stale-IsSound,
}
use tokendog.Discovery.Roles.{role, of_role, view, HasPools, PoolRef-cases}
use tokendog.Discovery.Roles.Lists.{retain-retain}
use tokendog.Discovery.Roles.Views.{view-handle_pod_event, view-handle_pod_deletion}
use tokendog.Discovery.Roles.Others.{
  view-handle_pod_event_other, view-handle_pod_deletion_other, HasPools-handle_pod_event,
  HasPools-handle_pod_deletion,
}
use tokendog.Discovery.Roles.Stale.{view-remove_stale}
use tokendog.Discovery.Roles.Known.{
  OneRole, All-handle_pod_event, All-handle_pod_deletion, same_role,
}

module _ (config : ServiceDiscoveryConfig) (K : PodInfo → Type 0) (apart : Apart config.port K)
    (one : OneRole K) where
  -- Each role is sound on its own.
  record AreSound (self : Discovery) : Type 0 where
    pools : HasPools self
    each : (r : PoolRef) → IsSound config K apart (view r self)
    known : All K self.tracked

  handle_pod_event-AreSound :
      (p : PodInfo) (self : Discovery)
      → K p
      → AreSound self
      → AreSound (handle_pod_event p config.port true self)
  handle_pod_event-AreSound p self k s = record {
    pools = HasPools-handle_pod_event p config.port self s.pools;
    each = seen;
    known = All-handle_pod_event K config.port p true self k s.known;
  }
    where
      seen :
          (r : PoolRef) → IsSound config K apart (view r (handle_pod_event p config.port true self))
      seen r =
          let same = same_role K config.port one p self.tracked k s.known in
          elim (PoolRef-cases (role p) r) [
            | inl at ↦
                subst (IsSound config K apart)
                  (sym (view-handle_pod_event r p config.port self s.pools same at))
                  (handle_pod_event-IsSound config K apart p (view r self) k (s.each r))
            | inr out ↦
                subst (IsSound config K apart)
                  (sym (view-handle_pod_event_other r p config.port self s.pools same out))
                  (s.each r)
          ]

  handle_pod_deletion-AreSound :
      (p : PodInfo) (self : Discovery)
      → K p
      → AreSound self
      → AreSound (handle_pod_deletion p config.port true self)
  handle_pod_deletion-AreSound p self k s = record {
    pools = HasPools-handle_pod_deletion p config.port self s.pools;
    each = seen;
    known = All-handle_pod_deletion K config.port p true self s.known;
  }
    where
      seen :
          (r : PoolRef)
          → IsSound config K apart (view r (handle_pod_deletion p config.port true self))
      seen r =
          let same = same_role K config.port one p self.tracked k s.known in
          elim (PoolRef-cases (role p) r) [
            | inl at ↦
                subst (IsSound config K apart)
                  (sym (view-handle_pod_deletion r p config.port self s.pools same at))
                  (handle_pod_deletion-IsSound config K apart p (view r self) k (s.each r))
            | inr out ↦
                subst (IsSound config K apart)
                  (sym (view-handle_pod_deletion_other r p config.port self s.pools same out))
                  (s.each r)
          ]

  add_missing-AreSound :
      (missing : List PodInfo) (self : Discovery)
      → All K missing
      → AreSound self
      → AreSound (add_missing config.port true missing self)
  unfolding add_missing
  add_missing-AreSound [] self k s = s
  add_missing-AreSound (p ∷ missing) self k s =
      add_missing-AreSound missing (handle_pod_event p config.port true self) k.1
        (handle_pod_event-AreSound p self k.0 s)

  reconcile_pods-AreSound :
      (live : List PodInfo) (self : Discovery)
      → All K live
      → AreSound self
      → AreSound (
          add_missing config.port true
            (retain is_healthy (difference live self.tracked))
            (remove_stale config.port true (difference self.tracked live) self))
  reconcile_pods-AreSound live self k s =
      let gone = difference self.tracked live in
      let k_gone = All-retain K (λ p. not (is_tracked p live)) self.tracked s.known in
      let missing = difference live self.tracked in
      let k_missing = All-retain K (λ p. not (is_tracked p self.tracked)) live k in
      let left =
        λ (r : PoolRef). view-remove_stale K config.port one r gone self s.pools k_gone s.known in
      add_missing-AreSound (retain is_healthy missing) (remove_stale config.port true gone self)
        (All-retain K is_healthy missing k_missing)
        (record {
          pools = (left regular_ref).0;
          known = (left regular_ref).1;
          each = λ r. subst (IsSound config K apart) (sym (left r).2) (without r);
        })
    where
      without :
          (r : PoolRef)
          → IsSound config K apart (
              remove_stale config.port false
                (retain (of_role r) (difference self.tracked live))
                (view r self))
      without r =
          let seen = view r self in
          let sound = s.each r in
          subst (λ gone. IsSound config K apart (remove_stale config.port false gone seen))
            (sym (retain-retain (of_role r) (λ p. not (is_tracked p live)) self.tracked))
            (remove_stale-IsSound config K apart (difference seen.tracked live) seen
              (DistinctNames-retain (λ p. not (is_tracked p live)) seen.tracked sound.agrees.names)
              (All-retain K (λ p. not (is_tracked p live)) seen.tracked sound.known)
              (All-retain (λ q. is_tracked q seen.tracked ≡ true) (λ p. not (is_tracked p live))
                seen.tracked (is_tracked_self seen.tracked))
              sound)

  module _ (pd : config.pd_mode ≡ true) where
    on_info-AreSound :
        (o : Option PodInfo) (deleted : Bool) (self : Discovery)
        → ((i : PodInfo) → o ≡ some i → K i)
        → AreSound self
        → AreSound (on_info o deleted config self)
    unfolding on_info
    on_info-AreSound none deleted self k s = s
    on_info-AreSound (some i) true self k s =
        subst (λ mode. AreSound (handle_pod_deletion i config.port mode self)) (sym pd)
          (handle_pod_deletion-AreSound i self (k i refl) s)
    on_info-AreSound (some i) false self k s =
        subst (λ mode. AreSound (handle_pod_event i config.port mode self)) (sym pd)
          (handle_pod_event-AreSound i self (k i refl) s)

    apply-AreSound :
        (u : Update) (self : Discovery)
        → OnlyNames config K u
        → AreSound self
        → AreSound (apply config u self)
    unfolding watch reconcile_pods compute_reconciliation_diff build_live_pod_set
    apply-AreSound (watched pod) self k s = elim (Bool-cases (should_include pod config)) [
      | inl included ↦
          rw included (on_info-AreSound (from_pod pod (some config)) (is_deleted pod) self k s)
      | inr out ↦ rw out s
    ]
    apply-AreSound (listed none) self k s = s
    apply-AreSound (listed (some pods)) self k s =
        let live = build_live_pod_set pods config in
        subst
          (λ mode. AreSound (
            add_missing config.port mode (retain is_healthy (difference live self.tracked))
              (remove_stale config.port mode (difference self.tracked live) self)))
          (sym pd) (reconcile_pods-AreSound live self (All-live_from config K pods [] k tt) s)

    apply_all-AreSound :
        (updates : List Update) (self : Discovery)
        → All (OnlyNames config K) updates
        → AreSound self
        → AreSound (apply_all config updates self)
    apply_all-AreSound [] self k s = s
    apply_all-AreSound (u ∷ updates) self k s =
        apply_all-AreSound updates (apply config u self) k.1 (apply-AreSound u self k.0 s)

    -- In PD mode, with both pools there, if every pod that the cluster tells of is in `K`, where
    -- different names have different URLs, one identity has one URL and one name has one role, then
    -- after any sequence of watch events and reconciliations, from a state whose tracked pods are in
    -- `K` and in which the pool of each role agrees with the tracked pods of that role, it still does:
    -- it has exactly their URLs, each once.
    pub apply_all-AreConsistent :
        (updates : List Update) (self : Discovery) (r : PoolRef)
        → All (OnlyNames config K) updates
        → All K self.tracked
        → HasPools self
        → ((t : PoolRef) → IsConsistent config.port (view t self))
        → IsConsistent config.port (view r (apply_all config updates self))
    apply_all-AreConsistent updates self r k known pools agree =
        let start : AreSound self = record {
          pools = pools;
          each =
              λ t. record { agrees = agree t; known = All-retain K (of_role t) self.tracked known };
          known = known;
        } in
        let s = apply_all-AreSound updates self k start in (s.each r).agrees
