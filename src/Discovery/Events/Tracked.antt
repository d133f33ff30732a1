-- ===== src/Discovery/Events/Tracked.antt =====
-- The tracked set: names and URLs that differ, and what find_restarted and untrack do to them.
use tokendog.Base.{
  subst, ℕ, ◌≡◌, ◌≢◌, refl, ◌∙◌, sym, ◌⊎◌, String, List, [], ◌∷◌, none, some, Bool, true, false,
  not, ◌&&◌, ◌||◌, any, retain, arith, Bool-cases, inl, inr, All, All-retain, some_eq,
}
use tokendog.Base.Text.{str_eq, eq_iff, eq_refl}
use tokendog.Discovery.Pods.{PodInfo, same_pod, worker_url}
use tokendog.Discovery.Events.{is_tracked, untrack, find_restarted}

-- Some tracked pod has the URL `u`.
abbrev pub serves : ℕ → String → List PodInfo → Bool
serves port u tracked = any (λ p. str_eq (worker_url p port) u) tracked

abbrev pub NoName : String → List PodInfo → Type 0
NoName name tracked = All (λ q. q.name ≢ name) tracked

abbrev pub NoUrl : ℕ → String → List PodInfo → Type 0
NoUrl port u tracked = All (λ q. worker_url q port ≢ u) tracked

abbrev pub DistinctNames : List PodInfo → Type 0
DistinctNames [] = Unit
DistinctNames (p ∷ tracked) = NoName p.name tracked × DistinctNames tracked

abbrev pub DistinctUrls : ℕ → List PodInfo → Type 0
DistinctUrls port [] = Unit
DistinctUrls port (p ∷ tracked) = NoUrl port (worker_url p port) tracked × DistinctUrls port tracked

abbrev pub Held : PodInfo → List PodInfo → Type 0
Held old [] = ⊥
Held old (p ∷ tracked) = (p ≡ old) ⊎ Held old tracked

All-Held :
    (P : PodInfo → Type 0) (old : PodInfo) (tracked : List PodInfo)
    → All P tracked
    → Held old tracked
    → P old
All-Held P old [] h held = elim held [ ]
All-Held P old (p ∷ tracked) h (inl e) = rw (← e) h.0
All-Held P old (p ∷ tracked) h (inr later) = All-Held P old tracked h.1 later

pub DistinctNames-retain :
    (keep : PodInfo → Bool) (tracked : List PodInfo)
    → DistinctNames tracked
    → DistinctNames (retain keep tracked)
DistinctNames-retain keep [] d = tt
DistinctNames-retain keep (p ∷ tracked) d = elim (Bool-cases (keep p)) [
  | inl kept ↦
      rw kept
        (All-retain (λ q. q.name ≢ p.name) keep tracked d.0, DistinctNames-retain keep tracked d.1)
  | inr gone ↦ rw gone (DistinctNames-retain keep tracked d.1)
]

pub DistinctUrls-retain :
    (port : ℕ) (keep : PodInfo → Bool) (tracked : List PodInfo)
    → DistinctUrls port tracked
    → DistinctUrls port (retain keep tracked)
DistinctUrls-retain port keep [] d = tt
DistinctUrls-retain port keep (p ∷ tracked) d = elim (Bool-cases (keep p)) [
  | inl kept ↦ rw kept (
    All-retain (λ q. worker_url q port ≢ worker_url p port) keep tracked d.0,
    DistinctUrls-retain port keep tracked d.1,
  )
  | inr gone ↦ rw gone (DistinctUrls-retain port keep tracked d.1)
]

pub same_pod_of_ne : (p q : PodInfo) → p.name ≢ q.name → same_pod p q ≡ false
unfolding same_pod
same_pod_of_ne p q ne = ground (arith, eq_iff p.name q.name)

pub same_pod_refl : (p : PodInfo) → same_pod p p ≡ true
unfolding same_pod
same_pod_refl p = rw (eq_refl p.name, eq_refl p.uid)

untrack_absent :
    (old : PodInfo) (tracked : List PodInfo)
    → NoName old.name tracked
    → untrack old tracked ≡ tracked
untrack_absent old [] h = refl
untrack_absent old (p ∷ tracked) h = rw (same_pod_of_ne p old h.0, untrack_absent old tracked h.1)

untrack_head :
    (p : PodInfo) (tracked : List PodInfo) (name : String)
    → NoName p.name tracked
    → p.name ≡ name
    → NoName name (untrack p (p ∷ tracked))
untrack_head p tracked name free e =
    rw (same_pod_refl p, untrack_absent p tracked free) (subst (λ n. NoName n tracked) e free)

serves-NoUrl :
    (port : ℕ) (u : String) (tracked : List PodInfo)
    → NoUrl port u tracked
    → serves port u tracked ≡ false
serves-NoUrl port u [] h = refl
serves-NoUrl port u (p ∷ tracked) h =
    ground (arith, eq_iff (worker_url p port) u, serves-NoUrl port u tracked h.1)

serves-untrack_head :
    (port : ℕ) (u : String) (p : PodInfo) (tracked : List PodInfo)
    → NoName p.name tracked
    → NoUrl port (worker_url p port) tracked
    → serves port u (untrack p (p ∷ tracked))
      ≡ (not (str_eq (worker_url p port) u) && serves port u (p ∷ tracked))
serves-untrack_head port u p tracked free own =
    rw (same_pod_refl p, untrack_absent p tracked free)
      (gone (Bool-cases (str_eq (worker_url p port) u)))
  where
    gone :
        (str_eq (worker_url p port) u ≡ true) ⊎ (str_eq (worker_url p port) u ≡ false)
        → serves port u tracked ≡ (
            not (str_eq (worker_url p port) u)
            && (str_eq (worker_url p port) u || serves port u tracked))
    gone (inl hit) = rw hit (
        serves-NoUrl port u tracked
          (subst (λ v. NoUrl port v tracked) ((eq_iff (worker_url p port) u).0 hit) own))
    gone (inr miss) = rw miss

-- Dropping a tracked pod drops its URL and no other.
pub serves-untrack :
    (port : ℕ) (u : String) (old : PodInfo) (tracked : List PodInfo)
    → Held old tracked
    → DistinctNames tracked
    → DistinctUrls port tracked
    → serves port u (untrack old tracked)
      ≡ (not (str_eq (worker_url old port) u) && serves port u tracked)
serves-untrack port u old [] held names urls = elim held [ ]
serves-untrack port u old (p ∷ tracked) (inl e) names urls =
    subst
      (λ x.
        serves port u (untrack x (p ∷ tracked))
        ≡ (not (str_eq (worker_url x port) u) && serves port u (p ∷ tracked)))
      e (serves-untrack_head port u p tracked names.0 urls.0)
serves-untrack port u old (p ∷ tracked) (inr later) names urls =
    let other : p.name ≢ old.name =
      λ e. All-Held (λ q. q.name ≢ p.name) old tracked names.0 later (sym e) in
    let ne : worker_url old port ≢ worker_url p port =
      All-Held (λ q. worker_url q port ≢ worker_url p port) old tracked urls.0 later in
    rw (same_pod_of_ne p old other) (
      rw (serves-untrack port u old tracked later names.1 urls.1)
        (ground (arith, eq_iff (worker_url p port) u, eq_iff (worker_url old port) u)))

-- Without a restart to find, a pod that is not tracked has a name of its own.
pub find_restarted-none :
    (pod_info : PodInfo) (tracked : List PodInfo)
    → is_tracked pod_info tracked ≡ false
    → find_restarted pod_info tracked ≡ none
    → NoName pod_info.name tracked
unfolding find_restarted same_pod
find_restarted-none pod_info [] new e = tt
find_restarted-none pod_info (p ∷ tracked) new e = (
  ground (arith, eq_iff p.name pod_info.name),
  find_restarted-none pod_info tracked (ground arith) (ground arith),
)

-- The pod that a restart replaces is tracked under the same name, and dropping it frees the name.
pub find_restarted-some :
    (pod_info old : PodInfo) (tracked : List PodInfo)
    → DistinctNames tracked
    → find_restarted pod_info tracked ≡ some old
    → Held old tracked × (old.name ≡ pod_info.name) × NoName pod_info.name (untrack old tracked)
unfolding find_restarted
find_restarted-some pod_info old [] names e = cc
find_restarted-some pod_info old (p ∷ tracked) names e =
    elim (Bool-cases (str_eq p.name pod_info.name && not (str_eq p.uid pod_info.uid))) [
      | inl hit ↦
          let same : p ≡ old = some_eq (rw hit at e) in
          let name : p.name ≡ pod_info.name = ground (arith, eq_iff p.name pod_info.name) in
          found same name
      | inr miss ↦ skipped (find_restarted-some pod_info old tracked names.1 (rw miss at e))
    ]
  where
    found :
        p ≡ old
        → p.name ≡ pod_info.name
        → Held old (p ∷ tracked)
          × (old.name ≡ pod_info.name)
          × NoName pod_info.name (untrack old (p ∷ tracked))
    found same name = (
      inl same,
      rw (← same) name,
      subst (λ x. NoName pod_info.name (untrack x (p ∷ tracked))) same
          (untrack_head p tracked pod_info.name names.0 name),
    )

    skipped :
        Held old tracked × (old.name ≡ pod_info.name) × NoName pod_info.name (untrack old tracked)
        → Held old (p ∷ tracked)
          × (old.name ≡ pod_info.name)
          × NoName pod_info.name (untrack old (p ∷ tracked))
    skipped (held, name, free) =
        let other : p.name ≢ old.name =
          λ e'. All-Held (λ q. q.name ≢ p.name) old tracked names.0 held (sym e') in
        (inr held, name, rw (same_pod_of_ne p old other) ((λ e'. other (e' ∙ sym name)), free))
