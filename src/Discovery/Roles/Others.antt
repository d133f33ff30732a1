-- ===== src/Discovery/Roles/Others.antt =====
-- An operation of the discovery on a pod of one role does nothing to the view of another role, and it
-- leaves the pools there.

use tokendog.Base.{
  ℕ, ◌≡◌, refl, sym, ap, ◌∙◌, subst, List, ◌∷◌, Option, none, some, Bool, true, false, not, ◌&&◌,
  retain, if◌then◌else◌,
}
use tokendog.Discovery.Pods.{PodInfo, worker_url, is_healthy}
use tokendog.Discovery.Pools.{
  Discovery, PoolRef, change_pool, add_worker_to_pool, remove_worker_from_pool, remove_url,
}
use tokendog.Discovery.Events.{
  is_tracked, untrack, find_restarted, track, handle_pod_event, handle_pod_deletion,
}
use tokendog.Discovery.Roles.{role, of_role, pool_at, alone, view, HasPools, select_pool-role}
use tokendog.Discovery.Roles.Lists.{SameRole, retain_drop, untrack-other, find_restarted-name}
use tokendog.Discovery.Roles.Views.{
  view-change_pool_other, view_tracked, view_if, event_at, deletion_at, handle_pod_event_lem,
  handle_pod_deletion_lem, HasPools-change_pool,
}
use tokendog.Worker.{Worker}

if_same {ℓ} : {A : Type ℓ} (b : Bool) (x : A) → (if b then x else x) ≡ x
if_same true x = refl
if_same false x = refl

module _ (r : PoolRef) (p : PodInfo) (port : ℕ) (self : Discovery) (pools : HasPools self)
    (same : SameRole p self.tracked) (out : of_role r p ≡ false) where
  left_out :
      (l : List PodInfo)
      → retain (of_role r) l ≡ retain (of_role r) self.tracked
      → view r (record self { tracked = l }) ≡ view r self
  left_out l e = view_tracked r self l ∙ ap (λ x. alone x (pool_at r self)) e

  view-track_other :
      (o : Option PodInfo)
      → ((old : PodInfo) → o ≡ some old → old.name ≡ p.name)
      → view r (track o p port (role p) self) ≡ view r self
  unfolding track
  view-track_other none name =
      view-change_pool_other r (role p) (λ ws. (add_worker_to_pool ws (worker_url p port)).0)
        (record self { tracked = p ∷ self.tracked }) out
      ∙ left_out (p ∷ self.tracked) (retain_drop (of_role r) p self.tracked out)
  view-track_other (some old) name =
      let drop : List Worker → List Worker =
        λ ws. (remove_worker_from_pool ws (worker_url old port)).0 in
      let left = record self { tracked = p ∷ untrack old self.tracked } in
      view-change_pool_other r (role p) (λ ws. (add_worker_to_pool ws (worker_url p port)).0)
        (change_pool (role p) drop left) out
      ∙ (view-change_pool_other r (role p) drop left out
          ∙ left_out (p ∷ untrack old self.tracked) (
              retain_drop (of_role r) p (untrack old self.tracked) out
              ∙ untrack-other r old p self.tracked same (name old refl) out))

  pub view-handle_pod_event_other : view r (handle_pod_event p port true self) ≡ view r self
  view-handle_pod_event_other =
      ap (view r) (
        handle_pod_event_lem p port true self
        ∙ ap (λ t. event_at p port t self) (select_pool-role p self pools))
      ∙ (view_if r (is_healthy p && not (is_tracked p self.tracked))
            (track (find_restarted p self.tracked) p port (role p) self) self
            (view-track_other (find_restarted p self.tracked)
              (λ old e. find_restarted-name p old self.tracked e))
            refl
          ∙ if_same (is_healthy p && not (is_tracked p self.tracked)) (view r self))

  pub view-drop_other :
      view r
        (remove_url (worker_url p port) (role p) (record self { tracked = untrack p self.tracked }))
      ≡ view r self
  view-drop_other =
      view-change_pool_other r (role p) (λ ws. (remove_worker_from_pool ws (worker_url p port)).0)
        (record self { tracked = untrack p self.tracked }) out
      ∙ left_out (untrack p self.tracked) (untrack-other r p p self.tracked same refl out)

  pub view-handle_pod_deletion_other : view r (handle_pod_deletion p port true self) ≡ view r self
  view-handle_pod_deletion_other =
      ap (view r) (
        handle_pod_deletion_lem p port true self
        ∙ ap (λ t. deletion_at p port t self) (select_pool-role p self pools))
      ∙ (view_if r (is_tracked p self.tracked) _ self view-drop_other refl
          ∙ if_same (is_tracked p self.tracked) (view r self))

HasPools-if : (b : Bool) (x y : Discovery) → HasPools x → HasPools y → HasPools (if b then x else y)
HasPools-if true x y h k = h
HasPools-if false x y h k = k

module _ (p : PodInfo) (port : ℕ) (self : Discovery) (pools : HasPools self) where
  HasPools-track : (o : Option PodInfo) → HasPools (track o p port (role p) self)
  unfolding track
  HasPools-track none =
      HasPools-change_pool (role p) _ (record self { tracked = p ∷ self.tracked }) pools
  HasPools-track (some old) =
      let left = record self { tracked = p ∷ untrack old self.tracked } in
      HasPools-change_pool (role p) _ _ (
        HasPools-change_pool (role p) (λ ws. (remove_worker_from_pool ws (worker_url old port)).0)
          left pools)

  pub HasPools-handle_pod_event : HasPools (handle_pod_event p port true self)
  HasPools-handle_pod_event =
      subst HasPools
        (sym (
          handle_pod_event_lem p port true self
          ∙ ap (λ t. event_at p port t self) (select_pool-role p self pools)))
        (HasPools-if (is_healthy p && not (is_tracked p self.tracked)) _ self
          (HasPools-track (find_restarted p self.tracked)) pools)

  pub HasPools-drop :
      HasPools
        (remove_url (worker_url p port) (role p) (record self { tracked = untrack p self.tracked }))
  HasPools-drop =
      HasPools-change_pool (role p) _ (record self { tracked = untrack p self.tracked }) pools

  pub HasPools-handle_pod_deletion : HasPools (handle_pod_deletion p port true self)
  HasPools-handle_pod_deletion =
      subst HasPools
        (sym (
          handle_pod_deletion_lem p port true self
          ∙ ap (λ t. deletion_at p port t self) (select_pool-role p self pools)))
        (HasPools-if (is_tracked p self.tracked) _ self HasPools-drop pools)
