-- ===== src/Discovery/Consistency.antt =====
-- Regular mode: the pool and the tracked set agree after every watch event.
pub mod Deletion
pub mod Live
pub mod Updates
use tokendog.Base.{
  ℕ, ◌≡◌, ◌≢◌, refl, ◌∙◌, sym, ap, String, List, [], ◌∷◌, Option, none, some, false, not, ◌&&◌,
  ◌||◌, arith, Bool-cases, inl, inr, All, All-retain,
}
use tokendog.Base.Text.{str_eq}
use tokendog.Discovery.Pods.{PodInfo, same_pod, worker_url, is_healthy}
use tokendog.Discovery.Pools.{
  Discovery, has_url, remove_worker_from_pool, select_pool, change_pool, regular_ref,
}
use tokendog.Discovery.Pools.Laws.{
  has_url-add_worker_to_pool, has_url-remove_worker_from_pool, NoTwice, NoTwice-add_worker_to_pool,
  NoTwice-remove_worker_from_pool,
}
use tokendog.Discovery.Events.{is_tracked, untrack, find_restarted, track, handle_pod_event}
use tokendog.Discovery.Events.Tracked.{
  serves, NoName, NoUrl, DistinctNames, DistinctUrls, Held, DistinctNames-retain,
  DistinctUrls-retain, serves-untrack, find_restarted-none, find_restarted-some,
}

-- Tracked pods have different names and different URLs; the pool has exactly the URLs of the
-- tracked pods, each once.
pub record IsConsistent (port : ℕ) (self : Discovery) : Type 0 where
  pub names : DistinctNames self.tracked
  pub urls : DistinctUrls port self.tracked
  pub listed : (u : String) → has_url u self.regular_pool ≡ serves port u self.tracked
  pub once : NoTwice self.regular_pool

-- No pod of another name has the URL of this one.
abbrev pub OwnUrl : ℕ → PodInfo → List PodInfo → Type 0
OwnUrl port pod_info tracked =
    All (λ q. q.name ≢ pod_info.name → worker_url q port ≢ worker_url pod_info port) tracked

NoUrl-of_OwnUrl :
    (port : ℕ) (pod_info : PodInfo) (tracked : List PodInfo)
    → OwnUrl port pod_info tracked
    → NoName pod_info.name tracked
    → NoUrl port (worker_url pod_info port) tracked
NoUrl-of_OwnUrl port pod_info [] own free = tt
NoUrl-of_OwnUrl port pod_info (q ∷ tracked) own free =
    (own.0 free.0, NoUrl-of_OwnUrl port pod_info tracked own.1 free.1)

module _ (port : ℕ) (pod_info : PodInfo) (self : Discovery) (c : IsConsistent port self)
    (own : OwnUrl port pod_info self.tracked) where
  track-none-IsConsistent :
      NoName pod_info.name self.tracked
      → IsConsistent port (track none pod_info port regular_ref self)
  unfolding track change_pool
  track-none-IsConsistent free = record {
    names = (free, c.names);
    urls = (NoUrl-of_OwnUrl port pod_info self.tracked own free, c.urls);
    listed = λ u.
        has_url-add_worker_to_pool u (worker_url pod_info port) self.regular_pool
        ∙ ap (λ b. str_eq (worker_url pod_info port) u || b) (c.listed u);
    once = NoTwice-add_worker_to_pool (worker_url pod_info port) self.regular_pool c.once;
  }

  track-some-IsConsistent :
      (old : PodInfo)
      → Held old self.tracked
      → NoName pod_info.name (untrack old self.tracked)
      → IsConsistent port (track (some old) pod_info port regular_ref self)
  unfolding track change_pool
  track-some-IsConsistent old held free = record {
    names = (free, DistinctNames-retain (λ p. not (same_pod p old)) self.tracked c.names);
    urls = (
      NoUrl-of_OwnUrl port pod_info (untrack old self.tracked)
          (All-retain (λ q. q.name ≢ pod_info.name → worker_url q port ≢ worker_url pod_info port)
            (λ p. not (same_pod p old)) self.tracked own)
          free,
      DistinctUrls-retain port (λ p. not (same_pod p old)) self.tracked c.urls,
    );
    listed = λ u.
        has_url-add_worker_to_pool u (worker_url pod_info port)
          (remove_worker_from_pool self.regular_pool (worker_url old port)).0
        ∙ ap (λ b. str_eq (worker_url pod_info port) u || b)
            (has_url-remove_worker_from_pool u (worker_url old port) self.regular_pool
              ∙ (ap (λ b. not (str_eq (worker_url old port) u) && b) (c.listed u)
                  ∙ sym (serves-untrack port u old self.tracked held c.names c.urls)));
    once =
        NoTwice-add_worker_to_pool (worker_url pod_info port)
          (remove_worker_from_pool self.regular_pool (worker_url old port)).0
          (NoTwice-remove_worker_from_pool (worker_url old port) self.regular_pool c.once);
  }

  -- A create or update event keeps the pool and the tracked set in agreement, if no tracked pod of
  -- another name has the URL of the pod.
  pub handle_pod_event-IsConsistent : IsConsistent port (handle_pod_event pod_info port false self)
  unfolding handle_pod_event select_pool
  handle_pod_event-IsConsistent =
      elim (Bool-cases (is_healthy pod_info && not (is_tracked pod_info self.tracked))) [
        | inr skip ↦ rw skip c
        | inl new ↦ rw new (tracked_new (ground arith) (find_restarted pod_info self.tracked) refl)
      ]
    where
      tracked_new :
          is_tracked pod_info self.tracked ≡ false
          → (o : Option PodInfo) → find_restarted pod_info self.tracked ≡ o
          → IsConsistent port (track o pod_info port regular_ref self)
      tracked_new new none e =
          track-none-IsConsistent (find_restarted-none pod_info self.tracked new e)
      tracked_new new (some old) e =
          let (held, name, free) = find_restarted-some pod_info old self.tracked c.names e in
          track-some-IsConsistent old held free
