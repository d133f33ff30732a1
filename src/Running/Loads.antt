-- ===== src/Running/Loads.antt =====
-- How many requests are in flight on a worker of a route.
use tokendog.Base.{
  ℕ, ◌+◌, ◌<◌, ◌≡◌, ◌≢◌, refl, sym, arith, List, [], ◌∷◌, ◌++◌, Bool, true, false, ◌&&◌, ◌==◌, ◌⊎◌,
  inl, inr, if◌then◌else◌, Bool-cases,
}
use tokendog.Policies.Balancer.Counts.{OneMore}
use tokendog.Running.Routes.{Route, regular, prefill, decode}

abbrev pub same_route : Route → Route → Bool
same_route regular regular = true
same_route prefill prefill = true
same_route decode decode = true
same_route _ _ = false

pub Route-cases : (q r : Route) → (q ≡ r) ⊎ (q ≢ r)
Route-cases regular regular = inl refl
Route-cases regular prefill = inr (λ e. cc)
Route-cases regular decode = inr (λ e. cc)
Route-cases prefill regular = inr (λ e. cc)
Route-cases prefill prefill = inl refl
Route-cases prefill decode = inr (λ e. cc)
Route-cases decode regular = inr (λ e. cc)
Route-cases decode prefill = inr (λ e. cc)
Route-cases decode decode = inl refl

same_route_self : (r : Route) → same_route r r ≡ true
same_route_self regular = refl
same_route_self prefill = refl
same_route_self decode = refl

same_route_other : (q r : Route) → q ≢ r → same_route q r ≡ false
same_route_other regular regular ne = absurd (ne refl)
same_route_other regular prefill ne = refl
same_route_other regular decode ne = refl
same_route_other prefill regular ne = refl
same_route_other prefill prefill ne = absurd (ne refl)
same_route_other prefill decode ne = refl
same_route_other decode regular ne = refl
same_route_other decode prefill ne = refl
same_route_other decode decode ne = absurd (ne refl)

-- The number of requests of route `r` in flight on worker `i`.
unfoldable pub load_on : List (Route × ℕ) → Route → ℕ → ℕ
load_on [] r i = 0
load_on ((q, j) ∷ l) r i =
    let rest = load_on l r i in if same_route q r && (j == i) then rest + 1 else rest

pub load_on-cons :
    (l : List (Route × ℕ)) (r : Route) (i : ℕ) → OneMore i (load_on l r) (load_on ((r, i) ∷ l) r)
unfolding load_on
load_on-cons l r i =
    (rw (same_route_self r) (ground arith), λ j ne. rw (same_route_self r) (ground arith))

pub load_on-cons_other :
    (l : List (Route × ℕ)) (q r : Route) (i j : ℕ)
    → q ≢ r
    → load_on ((r, i) ∷ l) q j ≡ load_on l q j
unfolding load_on
load_on-cons_other l q r i j ne = rw (same_route_other r q (λ e. ne (sym e))) refl

-- The order of the requests in flight does not matter.
pub load_on-middle :
    (xs ys : List (Route × ℕ)) (x : Route × ℕ) (r : Route) (i : ℕ)
    → load_on (xs ++ x ∷ ys) r i ≡ load_on (x ∷ xs ++ ys) r i
unfolding load_on
load_on-middle [] ys x r i = refl
load_on-middle ((q, j) ∷ xs) ys (q', j') r i =
    let ih = load_on-middle xs ys (q', j') r i in ground arith

-- What bounds the workers in flight bounds them with one request more or fewer.
pub OneMore-bound :
    (n i : ℕ) (load more : ℕ → ℕ)
    → OneMore i load more
    → i < n
    → ((j : ℕ) → 0 < load j → j < n)
    → (j : ℕ) → 0 < more j
    → j < n
OneMore-bound n i load more (here, there) lt bound j pos = elim (Bool-cases (j == i)) [
  | inl same ↦ ground arith
  | inr other ↦ let e = there j (ground arith) in bound j (omega arith)
]

pub OneMore-fewer :
    (n i : ℕ) (load more : ℕ → ℕ)
    → OneMore i load more
    → ((j : ℕ) → 0 < more j → j < n)
    → (j : ℕ) → 0 < load j
    → j < n
OneMore-fewer n i load more (here, there) bound j pos = elim (Bool-cases (j == i)) [
  | inl same ↦ let e : j ≡ i = ground arith in rw e (bound i (omega arith))
  | inr other ↦ let e = there j (ground arith) in bound j (omega arith)
]
