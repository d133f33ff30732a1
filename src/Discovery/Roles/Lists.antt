-- ===== src/Discovery/Roles/Lists.antt =====
-- The pods of one role among the tracked pods. A pod keeps its role as long as it keeps its name.
use tokendog.Base.{
  ◌≡◌, ◌≢◌, refl, sym, ap, ◌∙◌, List, [], ◌∷◌, some, Bool, true, false, not, ◌&&◌, ◌||◌, retain,
  arith, Bool-cases, inl, inr, All, some_eq, if◌then◌else◌,
}
use tokendog.Base.Text.{str_eq, eq_iff}
use tokendog.Discovery.Pods.{PodInfo, same_pod}
use tokendog.Discovery.Pools.{PoolRef}
use tokendog.Discovery.Events.{is_tracked, untrack, find_restarted}
use tokendog.Discovery.Events.Tracked.{same_pod_of_ne}
use tokendog.Discovery.Roles.{role, same_ref, of_role, same_ref_self}

-- The pods that have the name of `p` have its role.
abbrev pub SameRole : PodInfo → List PodInfo → Type 0
SameRole p tracked = All (λ q. q.name ≡ p.name → role q ≡ role p) tracked

module _ {ℓ} {A : Type ℓ} where
  pub retain_keep :
      (f : A → Bool) (x : A) (xs : List A) → f x ≡ true → retain f (x ∷ xs) ≡ x ∷ retain f xs
  retain_keep f x xs e = rw e refl

  pub retain_drop :
      (f : A → Bool) (x : A) (xs : List A) → f x ≡ false → retain f (x ∷ xs) ≡ retain f xs
  retain_drop f x xs e = rw e refl

  pub retain-retain :
      (f g : A → Bool) (xs : List A) → retain f (retain g xs) ≡ retain g (retain f xs)
  retain-retain f g [] = refl
  retain-retain f g (x ∷ xs) = elim (Bool-cases (f x)) [
    | inl a ↦ elim (Bool-cases (g x)) [
      | inl b ↦
          ap (retain f) (retain_keep g x xs b)
          ∙ (retain_keep f x (retain g xs) a
              ∙ (ap (◌∷◌ x) (retain-retain f g xs)
                  ∙ sym (ap (retain g) (retain_keep f x xs a) ∙ retain_keep g x (retain f xs) b)))
      | inr b ↦
          ap (retain f) (retain_drop g x xs b)
          ∙ (retain-retain f g xs
              ∙ sym (ap (retain g) (retain_keep f x xs a) ∙ retain_drop g x (retain f xs) b))
    ]
    | inr a ↦ elim (Bool-cases (g x)) [
      | inl b ↦
          ap (retain f) (retain_keep g x xs b)
          ∙ (retain_drop f x (retain g xs) a
              ∙ (retain-retain f g xs ∙ sym (ap (retain g) (retain_drop f x xs a))))
      | inr b ↦
          ap (retain f) (retain_drop g x xs b)
          ∙ (retain-retain f g xs ∙ sym (ap (retain g) (retain_drop f x xs a)))
    ]
  ]

same_pod_name : (q p : PodInfo) → same_pod q p ≡ true → q.name ≡ p.name
unfolding same_pod
same_pod_name q p e = ground (arith, eq_iff q.name p.name)

-- A pod of the name is of the role.
in_role :
    (r : PoolRef) (q p : PodInfo)
    → (q.name ≡ p.name → role q ≡ role p)
    → of_role r q ≡ false
    → role p ≡ r
    → q.name ≢ p.name
in_role r q p same out at e =
    let hit : of_role r q ≡ true = ap (λ t. same_ref t r) (same e ∙ at) ∙ same_ref_self r in cc

pub is_tracked-of_role :
    (r : PoolRef) (p : PodInfo) (tracked : List PodInfo)
    → SameRole p tracked
    → role p ≡ r
    → is_tracked p (retain (of_role r) tracked) ≡ is_tracked p tracked
is_tracked-of_role r p [] same at = refl
is_tracked-of_role r p (q ∷ tracked) same at = elim (Bool-cases (of_role r q)) [
  | inl here ↦ rw here (ap (λ b. same_pod q p || b) (is_tracked-of_role r p tracked same.1 at))
  | inr out ↦
      let ne = in_role r q p same.0 out at in
      let other : same_pod q p ≡ false = same_pod_of_ne q p ne in
      rw (out, other) (is_tracked-of_role r p tracked same.1 at)
]

pub find_restarted-of_role :
    (r : PoolRef) (p : PodInfo) (tracked : List PodInfo)
    → SameRole p tracked
    → role p ≡ r
    → find_restarted p (retain (of_role r) tracked) ≡ find_restarted p tracked
unfolding find_restarted
find_restarted-of_role r p [] same at = refl
find_restarted-of_role r p (q ∷ tracked) same at = elim (Bool-cases (of_role r q)) [
  | inl here ↦ rw here (rw (find_restarted-of_role r p tracked same.1 at) refl)
  | inr out ↦
      let ne = in_role r q p same.0 out at in
      let other : str_eq q.name p.name ≡ false = ground (arith, eq_iff q.name p.name) in
      rw (out, other) (find_restarted-of_role r p tracked same.1 at)
]

-- Dropping a pod of another role leaves the pods of this one.
pub untrack-other :
    (r : PoolRef) (x p : PodInfo) (tracked : List PodInfo)
    → SameRole p tracked
    → x.name ≡ p.name
    → of_role r p ≡ false
    → retain (of_role r) (untrack x tracked) ≡ retain (of_role r) tracked
untrack-other r x p [] same name out = refl
untrack-other r x p (q ∷ tracked) same name out = elim (Bool-cases (same_pod q x)) [
  | inl hit ↦
      let e = same_pod_name q x hit in
      let gone : of_role r q ≡ false = ap (λ t. same_ref t r) (same.0 (e ∙ name)) ∙ out in
      rw (hit, gone) (untrack-other r x p tracked same.1 name out)
  | inr miss ↦
      rw miss
        (ap (λ l. if of_role r q then q ∷ l else l) (untrack-other r x p tracked same.1 name out))
]

pub find_restarted-name :
    (p old : PodInfo) (tracked : List PodInfo)
    → find_restarted p tracked ≡ some old
    → old.name ≡ p.name
unfolding find_restarted
find_restarted-name p old [] e = cc
find_restarted-name p old (q ∷ tracked) e =
    elim (Bool-cases (str_eq q.name p.name && not (str_eq q.uid p.uid))) [
      | inl hit ↦
          let same : q ≡ old = some_eq (rw hit at e) in
          let name : q.name ≡ p.name = ground (arith, eq_iff q.name p.name) in
          ap (λ x. x.name) (sym same) ∙ name
      | inr miss ↦ find_restarted-name p old tracked (rw miss at e)
    ]
