-- ===== src/Discovery/Roles/Known.antt =====
-- What the operations of the discovery keep of the tracked pods in PD mode.
use tokendog.Base.{
  ℕ, ◌≡◌, refl, sym, ap, subst, List, [], ◌∷◌, Option, none, some, Bool, true, false, not, ◌&&◌,
  All, All-retain, if◌then◌else◌,
}
use tokendog.Discovery.Pods.{PodInfo, same_pod, worker_url, is_healthy}
use tokendog.Discovery.Pools.{
  Discovery, PoolRef, regular_ref, prefill_ref, decode_ref, select_pool, change_pool,
  remove_worker_from_pool, remove_url,
}
use tokendog.Discovery.Events.{
  is_tracked, untrack, find_restarted, track, handle_pod_event, handle_pod_deletion,
}
use tokendog.Discovery.Reconcile.{remove_stale}
use tokendog.Discovery.Roles.{role}
use tokendog.Discovery.Roles.Lists.{SameRole}
use tokendog.Discovery.Roles.Views.{tracked-change_pool}
use tokendog.Worker.{Worker}

-- Among the pods of `K`, a name has one role.
abbrev pub OneRole : (PodInfo → Type 0) → Type 0
OneRole K = (p q : PodInfo) → K p → K q → p.name ≡ q.name → role p ≡ role q

-- What remove_stale does with one pod.
abbrev pub dropped : PodInfo → ℕ → PoolRef → Discovery → Discovery
dropped p port target self =
    remove_url (worker_url p port) target (record self { tracked = untrack p self.tracked })

pub remove_stale-cons :
    (p : PodInfo) (port : ℕ) (stale : List PodInfo) (mode : Bool) (self : Discovery)
    → remove_stale port mode (p ∷ stale) self
      ≡ remove_stale port mode stale (dropped p port (select_pool p mode self) self)
unfolding remove_stale change_pool
remove_stale-cons p port stale mode self =
    ap (remove_stale port mode stale) (moved (select_pool p mode self))
  where
    moved :
        (t : PoolRef)
        → record (remove_url (worker_url p port) t self) {
          tracked = untrack p (remove_url (worker_url p port) t self).tracked;
        }
          ≡ dropped p port t self
    moved regular_ref = refl
    moved prefill_ref = refl
    moved decode_ref = refl

module _ (K : PodInfo → Type 0) (port : ℕ) where
  All-if :
      (b : Bool) (x y : Discovery)
      → All K x.tracked
      → All K y.tracked
      → All K (if b then x else y).tracked
  All-if true x y h k = h
  All-if false x y h k = k

  All-change_pool :
      (t : PoolRef) (change : List Worker → List Worker) (self : Discovery)
      → All K self.tracked
      → All K (change_pool t change self).tracked
  All-change_pool t change self h = subst (All K) (sym (tracked-change_pool t change self)) h

  All-track :
      (o : Option PodInfo) (p : PodInfo) (t : PoolRef) (self : Discovery)
      → K p
      → All K self.tracked
      → All K (track o p port t self).tracked
  unfolding track
  All-track none p t self k h =
      All-change_pool t _ (record self { tracked = p ∷ self.tracked }) (k, h)
  All-track (some old) p t self k h =
      All-change_pool t _
        (change_pool t (λ ws. (remove_worker_from_pool ws (worker_url old port)).0)
          (record self { tracked = p ∷ untrack old self.tracked }))
        (All-change_pool t _ (record self { tracked = p ∷ untrack old self.tracked })
          (k, All-retain K (λ q. not (same_pod q old)) self.tracked h))

  pub All-handle_pod_event :
      (p : PodInfo) (mode : Bool) (self : Discovery)
      → K p
      → All K self.tracked
      → All K (handle_pod_event p port mode self).tracked
  unfolding handle_pod_event
  All-handle_pod_event p mode self k h =
      All-if (is_healthy p && not (is_tracked p self.tracked)) _ self
        (All-track (find_restarted p self.tracked) p (select_pool p mode self) self k h) h

  pub All-dropped :
      (p : PodInfo) (t : PoolRef) (self : Discovery)
      → All K self.tracked
      → All K (dropped p port t self).tracked
  All-dropped p t self h =
      All-change_pool t _ (record self { tracked = untrack p self.tracked })
        (All-retain K (λ q. not (same_pod q p)) self.tracked h)

  pub All-handle_pod_deletion :
      (p : PodInfo) (mode : Bool) (self : Discovery)
      → All K self.tracked
      → All K (handle_pod_deletion p port mode self).tracked
  unfolding handle_pod_deletion
  All-handle_pod_deletion p mode self h =
      All-if (is_tracked p self.tracked) _ self (All-dropped p (select_pool p mode self) self h) h

  pub same_role :
      OneRole K → (p : PodInfo) (tracked : List PodInfo) → K p → All K tracked → SameRole p tracked
  same_role one p [] k h = tt
  same_role one p (q ∷ tracked) k h = (one q p h.0 k, same_role one p tracked k h.1)
