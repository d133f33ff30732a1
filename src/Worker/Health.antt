-- ===== src/Worker/Health.antt =====
-- What the list of healthy workers holds, and what a round of health checks does.
use Prim.Native.String
use tokendog.Base.{
  ℕ, zero, suc, ◌+◌, ◌-◌, ◌≤◌, ◌≡◌, refl, inl, inr, ◌↔◌, String, List, [], ◌∷◌, Option, none, some,
  true, false, arith, get_elem?, Bool-cases,
}
use tokendog.Base.Text.{trim_end_matches}
use tokendog.Worker.{Worker, healthy_from, healthy_worker_urls, is_ok, check_worker_health}

-- `(i, url)` is a healthy worker of the list, counted from `start`.
abbrev pub IsListed : ℕ → List Worker → ℕ → String → Type 0
IsListed start workers i url =
    (w : Worker) × (start ≤ i)
    × (get_elem? workers (i - start) ≡ some w)
    × (w.url ≡ url)
    × (w.healthy ≡ true)

IsListed-cons :
    (start : ℕ) (w : Worker) (workers : List Worker) (i : ℕ) (url : String)
    → IsListed (start + 1) workers i url
    → IsListed start (w ∷ workers) i url
IsListed-cons start w workers i url (v, le, at, same, up) =
    let shift : i - start ≡ suc (i - (start + 1)) = omega arith in
    (v, omega arith, rw shift at, same, up)

IsListed-head :
    (start : ℕ) (w : Worker) (workers : List Worker) (i : ℕ) (url : String)
    → w.healthy ≡ true
    → ◌≡◌ {A = Option (ℕ × String)} (some (start, w.url)) (some (i, url))
    → IsListed start (w ∷ workers) i url
IsListed-head start w workers i url up e =
    let same_i : start ≡ i = ground arith in
    let same_url : w.url ≡ url = ground arith in
    let first : i - start ≡ 0 = omega arith in (w, omega arith, rw first, same_url, up)

healthy_from-IsListed :
    (start : ℕ) (workers : List Worker) (k i : ℕ) (url : String)
    → get_elem? (healthy_from start workers) k ≡ some (i, url)
    → IsListed start workers i url
unfolding healthy_from
healthy_from-IsListed start [] k i url e = absurd (ground arith)
healthy_from-IsListed start (w ∷ workers) zero i url e = elim (Bool-cases w.healthy) [
  | inl up ↦ IsListed-head start w workers i url up (rw up at e)
  | inr down ↦
      IsListed-cons start w workers i url
        (healthy_from-IsListed (start + 1) workers zero i url (rw down at e))
]
healthy_from-IsListed start (w ∷ workers) (suc k) i url e = elim (Bool-cases w.healthy) [
  | inl up ↦
      IsListed-cons start w workers i url
        (healthy_from-IsListed (start + 1) workers k i url (rw up at e))
  | inr down ↦
      IsListed-cons start w workers i url
        (healthy_from-IsListed (start + 1) workers (suc k) i url (rw down at e))
]

-- Each entry names a worker of the pool by its index there, with its URL, and it is healthy.
pub healthy_worker_urls-IsListed :
    (workers : List Worker) (k i : ℕ) (url : String)
    → get_elem? (healthy_worker_urls workers) k ≡ some (i, url)
    → (w : Worker) × (get_elem? workers i ≡ some w) × (w.url ≡ url) × (w.healthy ≡ true)
healthy_worker_urls-IsListed workers k i url e =
    let (w, le, at, same, up) = healthy_from-IsListed 0 workers k i url e in
    let whole : i - 0 ≡ i = omega arith in (w, rw whole at at, same, up)

-- The list is empty exactly when no worker is healthy.
abbrev pub NoneHealthy : List Worker → Type 0
NoneHealthy [] = Unit
NoneHealthy (w ∷ workers) = (w.healthy ≡ false) × NoneHealthy workers

pub healthy_from-empty :
    (start : ℕ) (workers : List Worker) → (healthy_from start workers ≡ []) ↔ NoneHealthy workers
unfolding healthy_from
healthy_from-empty start [] = (λ _. tt, λ _. refl)
healthy_from-empty start (w ∷ workers) = elim (Bool-cases w.healthy) [
  | inl up ↦ (λ e. absurd (ground arith), λ h. absurd (ground arith))
  | inr down ↦
      let (to, from) = healthy_from-empty (start + 1) workers in
      (λ e. (down, to (rw down at e)), λ h. rw down (from h.1))
]

-- When every worker is healthy the list is the pool in order.
abbrev pub AllHealthy : List Worker → Type 0
AllHealthy [] = Unit
AllHealthy (w ∷ workers) = (w.healthy ≡ true) × AllHealthy workers

is_ok_iff : (answer : Option ℕ) → (is_ok answer ≡ true) ↔ (answer ≡ some 200)
is_ok_iff none = (λ e. cc, λ e. cc)
is_ok_iff (some status) = (λ e. ground arith, λ e. ground arith)

pub probe_iff :
    (get : String → Option ℕ) (url : String)
    → (check_worker_health get url ≡ true)
      ↔ (get (String.◌++◌ (trim_end_matches b'/' url) "/health") ≡ some 200)
unfolding check_worker_health
probe_iff get url = is_ok_iff (get (String.◌++◌ (trim_end_matches b'/' url) "/health"))
