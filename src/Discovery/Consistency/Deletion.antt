-- ===== src/Discovery/Consistency/Deletion.antt =====
-- Regular mode: handle_pod_deletion and the removal of stale pods keep the pool and the tracked set
-- in agreement.
use tokendog.Base.{
  ℕ, ◌≡◌, ◌≢◌, refl, ◌∙◌, sym, ap, List, [], ◌∷◌, true, false, not, ◌&&◌, retain, arith, Bool-cases,
  inl, inr, All,
}
use tokendog.Base.Text.{str_eq, eq_iff}
use tokendog.Discovery.Pods.{PodInfo, same_pod, worker_url}
use tokendog.Discovery.Pools.{Discovery, remove_worker_from_pool, select_pool, change_pool}
use tokendog.Discovery.Pools.Laws.{has_url-remove_worker_from_pool, NoTwice-remove_worker_from_pool}
use tokendog.Discovery.Events.{is_tracked, untrack, handle_pod_deletion}
use tokendog.Discovery.Events.Tracked.{
  serves, Held, DistinctNames-retain, DistinctUrls-retain, serves-untrack, same_pod_refl,
}
use tokendog.Discovery.Reconcile.{remove_stale}
use tokendog.Discovery.Consistency.{IsConsistent}

-- A tracked pod of the same identity has the same URL.
abbrev pub SameUrl : ℕ → PodInfo → List PodInfo → Type 0
SameUrl port pod_info tracked =
    All (λ q. same_pod q pod_info ≡ true → worker_url q port ≡ worker_url pod_info port) tracked

same_pod_names : (a b : PodInfo) → same_pod a b ≡ true → (a.name ≡ b.name) × (a.uid ≡ b.uid)
unfolding same_pod
same_pod_names a b e = (ground (arith, eq_iff a.name b.name), ground (arith, eq_iff a.uid b.uid))

untrack-same :
    (a b : PodInfo) (tracked : List PodInfo)
    → same_pod a b ≡ true
    → untrack a tracked ≡ untrack b tracked
unfolding same_pod
untrack-same a b tracked e =
    let (name, uid) = same_pod_names a b e in
    ap (λ n. retain (λ p. not (str_eq p.name n && str_eq p.uid a.uid)) tracked) name
    ∙ ap (λ n. retain (λ p. not (str_eq p.name b.name && str_eq p.uid n)) tracked) uid

-- The tracked pod that `is_tracked` found.
is_tracked-Held :
    (port : ℕ) (pod_info : PodInfo) (tracked : List PodInfo)
    → SameUrl port pod_info tracked
    → is_tracked pod_info tracked ≡ true
    → (old : PodInfo) × Held old tracked
      × (same_pod old pod_info ≡ true)
      × (worker_url old port ≡ worker_url pod_info port)
is_tracked-Held port pod_info [] own e = cc
is_tracked-Held port pod_info (p ∷ tracked) own e = elim (Bool-cases (same_pod p pod_info)) [
  | inl same ↦ (p, inl refl, same, own.0 same)
  | inr other ↦
      let (old, held, same, url) = is_tracked-Held port pod_info tracked own.1 (rw other at e) in
      (old, inr held, same, url)
]

module _ (port : ℕ) (pod_info : PodInfo) (self : Discovery) (c : IsConsistent port self)
    (own : SameUrl port pod_info self.tracked) where
  -- A deletion event keeps the pool and the tracked set in agreement, if the tracked pod of the same
  -- identity, where there is one, has the URL of the event.
  pub handle_pod_deletion-IsConsistent :
      IsConsistent port (handle_pod_deletion pod_info port false self)
  unfolding handle_pod_deletion select_pool change_pool
  handle_pod_deletion-IsConsistent = elim (Bool-cases (is_tracked pod_info self.tracked)) [
    | inr skip ↦ rw skip c
    | inl there ↦ rw there (removed (is_tracked-Held port pod_info self.tracked own there))
  ]
    where
      removed :
          (old : PodInfo) × Held old self.tracked
            × (same_pod old pod_info ≡ true)
            × (worker_url old port ≡ worker_url pod_info port)
          → IsConsistent port (record self {
            tracked = untrack pod_info self.tracked;
            regular_pool = (remove_worker_from_pool self.regular_pool (worker_url pod_info port)).0;
          })
      removed (old, held, same, url) = record {
        names = DistinctNames-retain (λ p. not (same_pod p pod_info)) self.tracked c.names;
        urls = DistinctUrls-retain port (λ p. not (same_pod p pod_info)) self.tracked c.urls;
        listed = λ u.
            has_url-remove_worker_from_pool u (worker_url pod_info port) self.regular_pool
            ∙ (ap (λ b. not (str_eq (worker_url pod_info port) u) && b) (c.listed u)
                ∙ (ap (λ v. not (str_eq v u) && serves port u self.tracked) (sym url)
                    ∙ (sym (serves-untrack port u old self.tracked held c.names c.urls)
                        ∙ ap (serves port u) (untrack-same old pod_info self.tracked same))));
        once = NoTwice-remove_worker_from_pool (worker_url pod_info port) self.regular_pool c.once;
      }

-- Removing a tracked pod as stale is deleting it.
pub remove_stale-handle_pod_deletion :
    (port : ℕ) (pod_info : PodInfo) (stale : List PodInfo) (self : Discovery)
    → is_tracked pod_info self.tracked ≡ true
    → remove_stale port false (pod_info ∷ stale) self
      ≡ remove_stale port false stale (handle_pod_deletion pod_info port false self)
unfolding remove_stale handle_pod_deletion select_pool change_pool
remove_stale-handle_pod_deletion port pod_info stale self there = rw there

-- Dropping a pod leaves the pods of other names tracked.
pub is_tracked-untrack :
    (q p : PodInfo) (tracked : List PodInfo)
    → q.name ≢ p.name
    → is_tracked q (untrack p tracked) ≡ is_tracked q tracked
unfolding same_pod
is_tracked-untrack q p [] ne = refl
is_tracked-untrack q p (x ∷ tracked) ne =
    ground (arith, eq_iff x.name q.name, eq_iff x.name p.name, is_tracked-untrack q p tracked ne)

is_tracked_later :
    (p : PodInfo) (tracked ts : List PodInfo)
    → All (λ q. is_tracked q tracked ≡ true) ts
    → All (λ q. is_tracked q (p ∷ tracked) ≡ true) ts
is_tracked_later p tracked [] h = tt
is_tracked_later p tracked (t ∷ ts) h = (ground arith, is_tracked_later p tracked ts h.1)

pub is_tracked_self : (tracked : List PodInfo) → All (λ q. is_tracked q tracked ≡ true) tracked
is_tracked_self [] = tt
is_tracked_self (p ∷ tracked) =
    (rw (same_pod_refl p), is_tracked_later p tracked tracked (is_tracked_self tracked))
