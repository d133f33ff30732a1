-- ===== src/Discovery/Roles/Stale.antt =====
-- PD mode: the removal of stale pods.
use tokendog.Base.{
  ℕ, ◌≡◌, refl, sym, ap, ◌∙◌, subst, List, [], ◌∷◌, Bool, true, false, retain, inl, inr, All,
}
use tokendog.Discovery.Pods.{PodInfo}
use tokendog.Discovery.Pools.{Discovery, PoolRef}
use tokendog.Discovery.Reconcile.{remove_stale}
use tokendog.Discovery.Roles.{
  role, of_role, view, HasPools, PoolRef-cases, same_ref, same_ref_self, select_pool-role,
}
use tokendog.Discovery.Roles.Lists.{retain_keep, retain_drop}
use tokendog.Discovery.Roles.Views.{select_pool-regular, view-drop}
use tokendog.Discovery.Roles.Others.{view-drop_other, HasPools-drop}
use tokendog.Discovery.Roles.Known.{OneRole, dropped, remove_stale-cons, All-dropped, same_role}

remove_stale_none :
    (port : ℕ) (mode : Bool) (self : Discovery) → remove_stale port mode [] self ≡ self
unfolding remove_stale
remove_stale_none port mode self = refl

module _ (K : PodInfo → Type 0) (port : ℕ) (one : OneRole K) (r : PoolRef) where
  -- One stale pod, on the view of a role.
  view-dropped :
      (p : PodInfo) (stale : List PodInfo) (self : Discovery)
      → HasPools self
      → K p
      → All K self.tracked
      → remove_stale port false (retain (of_role r) stale) (view r (dropped p port (role p) self))
        ≡ remove_stale port false (retain (of_role r) (p ∷ stale)) (view r self)
  view-dropped p stale self pools k h =
      let same = same_role K port one p self.tracked k h in
      let rest = retain (of_role r) stale in
      elim (PoolRef-cases (role p) r) [
        | inl at ↦
            let here : of_role r p ≡ true = ap (λ t. same_ref t r) at ∙ same_ref_self r in
            ap (remove_stale port false rest)
              (ap (λ t. view r (dropped p port t self)) at ∙ view-drop r p port self pools same at)
            ∙ sym (
                ap (λ l. remove_stale port false l (view r self))
                  (retain_keep (of_role r) p stale here)
                ∙ (remove_stale-cons p port rest false (view r self)
                    ∙ ap (λ t. remove_stale port false rest (dropped p port t (view r self)))
                        (select_pool-regular p (view r self))))
        | inr out ↦
            ap (remove_stale port false rest) (view-drop_other r p port self pools same out)
            ∙ sym (
                ap (λ l. remove_stale port false l (view r self))
                  (retain_drop (of_role r) p stale out))
      ]

  -- The removal of stale pods, on the view of a role, removes the stale pods of the role.
  pub view-remove_stale :
      (stale : List PodInfo) (self : Discovery)
      → HasPools self
      → All K stale
      → All K self.tracked
      → HasPools (remove_stale port true stale self)
        × All K (remove_stale port true stale self).tracked
        × (view r (remove_stale port true stale self)
            ≡ remove_stale port false (retain (of_role r) stale) (view r self))
  view-remove_stale [] self pools k h =
      let e = remove_stale_none port true self in
      (
        subst HasPools (sym e) pools,
        subst (λ s. All K s.tracked) (sym e) h,
        ap (view r) e ∙ sym (remove_stale_none port false (view r self)),
      )
  view-remove_stale (p ∷ stale) self pools k h =
      let e =
        remove_stale-cons p port stale true self
        ∙ ap (λ t. remove_stale port true stale (dropped p port t self))
            (select_pool-role p self pools) in
      let (pools', h', seen) =
        view-remove_stale stale (dropped p port (role p) self) (HasPools-drop p port self pools) k.1
          (All-dropped K port p (role p) self h) in
      (
        subst HasPools (sym e) pools',
        subst (λ s. All K s.tracked) (sym e) h',
        ap (view r) e ∙ (seen ∙ view-dropped p stale self pools k.0 h),
      )
