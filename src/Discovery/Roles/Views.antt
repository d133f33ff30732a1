-- ===== src/Discovery/Roles/Views.antt =====
-- Each operation of the discovery in PD mode, on the view of a role: on the role of its pod it is the
-- operation in regular mode, and on the others it does nothing.
use mathlib.Core.Path.{ap₂}
use tokendog.Base.{
  ℕ, ◌≡◌, refl, sym, ap, ◌∙◌, List, ◌∷◌, Option, none, some, Bool, true, false, not, ◌&&◌, retain,
  if◌then◌else◌,
}
use tokendog.Discovery.Pods.{PodInfo, same_pod, worker_url, is_healthy}
use tokendog.Discovery.Pools.{
  Discovery, PoolRef, regular_ref, prefill_ref, decode_ref, select_pool, change_pool,
  add_worker_to_pool, remove_worker_from_pool, remove_url,
}
use tokendog.Discovery.Events.{
  is_tracked, untrack, find_restarted, track, handle_pod_event, handle_pod_deletion,
}
use tokendog.Discovery.Roles.{
  role, same_ref, of_role, pool_at, alone, view, HasPools, same_ref_self, select_pool-role,
}
use tokendog.Discovery.Roles.Lists.{
  SameRole, retain_keep, retain-retain, is_tracked-of_role, find_restarted-of_role,
}
use tokendog.Worker.{Worker}

pool_at-change_pool :
    (r : PoolRef) (change : List Worker → List Worker) (self : Discovery)
    → HasPools self
    → pool_at r (change_pool r change self) ≡ change (pool_at r self)
unfolding change_pool
pool_at-change_pool regular_ref change self h = refl
pool_at-change_pool prefill_ref change self ((w, at), d) = rw at refl
pool_at-change_pool decode_ref change self (p, (w, at)) = rw at refl

pool_at-change_pool_other :
    (r t : PoolRef) (change : List Worker → List Worker) (self : Discovery)
    → same_ref t r ≡ false
    → pool_at r (change_pool t change self) ≡ pool_at r self
unfolding change_pool
pool_at-change_pool_other regular_ref regular_ref change self ne = absurd cc
pool_at-change_pool_other regular_ref prefill_ref change self ne = refl
pool_at-change_pool_other regular_ref decode_ref change self ne = refl
pool_at-change_pool_other prefill_ref regular_ref change self ne = refl
pool_at-change_pool_other prefill_ref prefill_ref change self ne = absurd cc
pool_at-change_pool_other prefill_ref decode_ref change self ne = refl
pool_at-change_pool_other decode_ref regular_ref change self ne = refl
pool_at-change_pool_other decode_ref prefill_ref change self ne = refl
pool_at-change_pool_other decode_ref decode_ref change self ne = absurd cc

pub tracked-change_pool :
    (t : PoolRef) (change : List Worker → List Worker) (self : Discovery)
    → (change_pool t change self).tracked ≡ self.tracked
unfolding change_pool
tracked-change_pool regular_ref change self = refl
tracked-change_pool prefill_ref change self = refl
tracked-change_pool decode_ref change self = refl

pub HasPools-change_pool :
    (t : PoolRef) (change : List Worker → List Worker) (self : Discovery)
    → HasPools self
    → HasPools (change_pool t change self)
unfolding change_pool
HasPools-change_pool regular_ref change self h = h
HasPools-change_pool prefill_ref change self ((w, at), d) = ((change w, rw at refl), d)
HasPools-change_pool decode_ref change self (p, (w, at)) = (p, (change w, rw at refl))

-- A write to the pool of a role, with the tracked pods it leaves.
view-change_pool :
    (r : PoolRef) (change : List Worker → List Worker) (self : Discovery)
    → HasPools self
    → view r (change_pool r change self) ≡ change_pool regular_ref change (view r self)
unfolding change_pool
view-change_pool r change self h =
    ap₂ alone (ap (retain (of_role r)) (tracked-change_pool r change self))
      (pool_at-change_pool r change self h)

pub view-change_pool_other :
    (r t : PoolRef) (change : List Worker → List Worker) (self : Discovery)
    → same_ref t r ≡ false
    → view r (change_pool t change self) ≡ view r self
view-change_pool_other r t change self ne =
    ap₂ alone (ap (retain (of_role r)) (tracked-change_pool t change self))
      (pool_at-change_pool_other r t change self ne)

pool_at_tracked :
    (r : PoolRef) (self : Discovery) (l : List PodInfo)
    → pool_at r (record self { tracked = l }) ≡ pool_at r self
pool_at_tracked regular_ref self l = refl
pool_at_tracked prefill_ref self l = refl
pool_at_tracked decode_ref self l = refl

pub view_tracked :
    (r : PoolRef) (self : Discovery) (l : List PodInfo)
    → view r (record self { tracked = l }) ≡ alone (retain (of_role r) l) (pool_at r self)
view_tracked r self l = ap (alone (retain (of_role r) l)) (pool_at_tracked r self l)

pub view_if :
    (r : PoolRef) (b : Bool) (x y : Discovery) {x' y' : Discovery}
    → view r x ≡ x'
    → view r y ≡ y'
    → view r (if b then x else y) ≡ (if b then x' else y')
view_if r true x y e h = e
view_if r false x y e h = h

-- The bodies of the handlers, once the pool is selected.
abbrev pub event_at : PodInfo → ℕ → PoolRef → Discovery → Discovery
event_at p port target self =
    if is_healthy p && not (is_tracked p self.tracked)
    then track (find_restarted p self.tracked) p port target self
    else self

abbrev pub deletion_at : PodInfo → ℕ → PoolRef → Discovery → Discovery
deletion_at p port target self =
    if is_tracked p self.tracked
    then remove_url (worker_url p port) target (record self { tracked = untrack p self.tracked })
    else self

pub handle_pod_event_lem :
    (p : PodInfo) (port : ℕ) (mode : Bool) (self : Discovery)
    → handle_pod_event p port mode self ≡ event_at p port (select_pool p mode self) self
unfolding handle_pod_event
handle_pod_event_lem p port mode self = refl

pub handle_pod_deletion_lem :
    (p : PodInfo) (port : ℕ) (mode : Bool) (self : Discovery)
    → handle_pod_deletion p port mode self ≡ deletion_at p port (select_pool p mode self) self
unfolding handle_pod_deletion
handle_pod_deletion_lem p port mode self = refl

pub select_pool-regular : (p : PodInfo) (self : Discovery) → select_pool p false self ≡ regular_ref
unfolding select_pool
select_pool-regular p self = refl

module _ (r : PoolRef) (p : PodInfo) (port : ℕ) (self : Discovery) (pools : HasPools self)
    (same : SameRole p self.tracked) (at : role p ≡ r) where
  of_role_self : of_role r p ≡ true
  of_role_self = ap (λ t. same_ref t r) at ∙ same_ref_self r

  view-track :
      (o : Option PodInfo)
      → view r (track o p port r self) ≡ track o p port regular_ref (view r self)
  unfolding track
  view-track none =
      let add : List Worker → List Worker = λ ws. (add_worker_to_pool ws (worker_url p port)).0 in
      view-change_pool r add (record self { tracked = p ∷ self.tracked }) pools
      ∙ ap (change_pool regular_ref add) (
          view_tracked r self (p ∷ self.tracked)
          ∙ ap (λ l. alone l (pool_at r self))
              (retain_keep (of_role r) p self.tracked of_role_self))
  view-track (some old) =
      let add : List Worker → List Worker = λ ws. (add_worker_to_pool ws (worker_url p port)).0 in
      let drop : List Worker → List Worker =
        λ ws. (remove_worker_from_pool ws (worker_url old port)).0 in
      let left = record self { tracked = p ∷ untrack old self.tracked } in
      view-change_pool r add (change_pool r drop left) (HasPools-change_pool r drop left pools)
      ∙ ap (change_pool regular_ref add) (
          view-change_pool r drop left pools
          ∙ ap (change_pool regular_ref drop) (
              view_tracked r self (p ∷ untrack old self.tracked)
              ∙ ap (λ l. alone l (pool_at r self))
                  (retain_keep (of_role r) p (untrack old self.tracked) of_role_self
                    ∙ ap (◌∷◌ p)
                        (retain-retain (of_role r) (λ q. not (same_pod q old)) self.tracked))))

  pub view-handle_pod_event :
      view r (handle_pod_event p port true self) ≡ handle_pod_event p port false (view r self)
  view-handle_pod_event =
      ap (view r) (
        handle_pod_event_lem p port true self
        ∙ ap (λ t. event_at p port t self) (select_pool-role p self pools ∙ at))
      ∙ (view_if r (is_healthy p && not (is_tracked p self.tracked))
            (track (find_restarted p self.tracked) p port r self) self
            (view-track (find_restarted p self.tracked)) refl
          ∙ sym (
              handle_pod_event_lem p port false (view r self)
              ∙ (ap (λ t. event_at p port t (view r self)) (select_pool-regular p (view r self))
                  ∙ ap₂
                      (λ b o.
                        if is_healthy p && not b
                        then track o p port regular_ref (view r self)
                        else view r self)
                      (is_tracked-of_role r p self.tracked same at)
                      (find_restarted-of_role r p self.tracked same at))))

  -- Dropping the pod and its URL, as a deletion and as the removal of a stale pod.
  pub view-drop :
      view r (remove_url (worker_url p port) r (record self { tracked = untrack p self.tracked }))
      ≡ remove_url
          (worker_url p port)
          regular_ref
          (record (view r self) { tracked = untrack p (retain (of_role r) self.tracked) })
  view-drop =
      let drop : List Worker → List Worker =
        λ ws. (remove_worker_from_pool ws (worker_url p port)).0 in
      view-change_pool r drop (record self { tracked = untrack p self.tracked }) pools
      ∙ ap (change_pool regular_ref drop) (
          view_tracked r self (untrack p self.tracked)
          ∙ ap (λ l. alone l (pool_at r self))
              (retain-retain (of_role r) (λ q. not (same_pod q p)) self.tracked))

  pub view-handle_pod_deletion :
      view r (handle_pod_deletion p port true self) ≡ handle_pod_deletion p port false (view r self)
  view-handle_pod_deletion =
      ap (view r) (
        handle_pod_deletion_lem p port true self
        ∙ ap (λ t. deletion_at p port t self) (select_pool-role p self pools ∙ at))
      ∙ (view_if r (is_tracked p self.tracked) _ self view-drop refl
          ∙ sym (
              handle_pod_deletion_lem p port false (view r self)
              ∙ (ap (λ t. deletion_at p port t (view r self)) (select_pool-regular p (view r self))
                  ∙ ap
                      (λ b.
                        if b
                        then remove_url (worker_url p port) regular_ref (record (view r self) {
                          tracked = untrack p (retain (of_role r) self.tracked);
                        })
                        else view r self)
                      (is_tracked-of_role r p self.tracked same at))))
