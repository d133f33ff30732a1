-- ===== src/Policies/Balancer/Parts.antt =====
-- The index that each policy without floating-point scores selects is in range.
use native.Mathlib.Nat.{mod-lt}
use Prim.Native.Nat.{◌%◌}
use tokendog.Base.{
  ℕ, zero, suc, ◌+◌, ◌-◌, ◌<◌, ◌≡◌, inl, inr, String, List, [], ◌∷◌, Option, none, some, arith, ret,
  ◌>>=◌, unwrap, length, get_elem?, leb, ltb, ◌==◌, if◌then◌else◌, Bool-cases, All, All-get_elem?,
  >>=-eq-ret,
}
use tokendog.Base.Env.{Env, gen_range}
use tokendog.Policies.{RequestContext}
use tokendog.Policies.Active.{load}
use tokendog.Policies.Hash.{stable_hash}
use tokendog.Policies.RoundRobin
use tokendog.Policies.RoundRobin.{checked_rem, RoundRobin}
use tokendog.Policies.Random
use tokendog.Policies.LeastLoaded
use tokendog.Policies.LeastLoaded.{LeastLoaded}
use tokendog.Policies.PowerOfTwo
use tokendog.Policies.PowerOfTwo.{PowerOfTwo}
use tokendog.Policies.SessionAffinity
use tokendog.Policies.PrefixAffinity
use tokendog.Policies.PrefixAffinity.{PrefixAffinity}
use tokendog.Policies.Shortest.{tied_from, min_load, jsq_fallback}

gen_range_lt : (env : Env) (k n : ℕ) {r : ℕ} → gen_range env k n ≡ ret r → r < n
gen_range_lt env k n h = elim (Bool-cases (n == 0)) [
  | inl empty ↦ absurd (ground arith)
  | inr some_n ↦ ground (arith, env.draw_lt k n)
]

pub checked_rem_lt : (a b : ℕ) {r : ℕ} → checked_rem a b ≡ ret r → r < b
checked_rem_lt a b h = elim (Bool-cases (b == 0)) [
  | inl empty ↦ absurd (ground arith)
  | inr some_b ↦ let lt : a % b < b = mod-lt a (ground arith) in ground arith
]

pub Random_lt :
    (env : Env) (ws : List String) {r : ℕ} → Random.select env ws ≡ ret r → r < length ws
unfolding Random.select
Random_lt env ws h = gen_range_lt env 0 (length ws) h

pub RoundRobin_lt :
    (p p' : RoundRobin) (ws : List String) (r : ℕ)
    → RoundRobin.select p ws ≡ ret (r, p')
    → r < length ws
unfolding RoundRobin.select
RoundRobin_lt p p' ws r h =
    let (i, e, same) = >>=-eq-ret (checked_rem p.counter (length ws)) _ h in
    let lt = checked_rem_lt p.counter (length ws) e in ground arith

pub PowerOfTwo_lt :
    (env : Env) (p : PowerOfTwo) (ws : List String) {r : ℕ}
    → PowerOfTwo.select env p ws ≡ ret r
    → r < length ws
unfolding PowerOfTwo.select
PowerOfTwo_lt env p ws h =
    let (a, at_a, h1) = >>=-eq-ret (gen_range env 0 (length ws)) _ h in
    let (b, at_b, h2) = >>=-eq-ret (gen_range env 1 (length ws)) _ h1 in
    let (x, at_x, h3) = >>=-eq-ret (load p.active a) _ h2 in
    let (y, at_y, h4) = >>=-eq-ret (load p.active b) _ h3 in
    let a_lt = gen_range_lt env 0 (length ws) at_a in
    let b_lt = gen_range_lt env 1 (length ws) at_b in
    elim (Bool-cases (leb x y)) [ inl le ↦ ground arith | inr gt ↦ ground arith ]

scan_lt :
    (active : List ℕ) (k i best q : ℕ) {r : ℕ}
    → LeastLoaded.scan active k i best q ≡ ret r
    → best < i + k
    → r < i + k
unfolding LeastLoaded.scan
scan_lt active zero i best q h lt = ground arith
scan_lt active (suc k) i best q h lt =
    let (p, at_p, rest) = >>=-eq-ret (load active i) _ h in
    let ih =
      scan_lt active k (i + 1) (if ltb p q then i else best) (if ltb p q then p else q) rest in
    elim (Bool-cases (ltb p q)) [ inl less ↦ ground (arith, ih) | inr more ↦ ground (arith, ih) ]

pub LeastLoaded_lt :
    (env : Env) (p : LeastLoaded) (ws : List String) {r : ℕ}
    → LeastLoaded.select env p ws ≡ ret r
    → r < length ws
unfolding LeastLoaded.select
LeastLoaded_lt env p ws h =
    let (best, at_best, h1) = >>=-eq-ret (gen_range env 0 (length ws)) _ h in
    let (q, at_q, h2) = >>=-eq-ret (load p.active 0) _ h1 in
    let lt = gen_range_lt env 0 (length ws) at_best in
    omega (arith, scan_lt p.active (length ws - 1) 1 best q h2 (omega arith))

pub drawn_lt :
    (env : Env) (n : ℕ) (ts : List ℕ) {r : ℕ}
    → All (λ t. t < n) ts
    → (gen_range env 0 (length ts) >>= λ k. unwrap (get_elem? ts k)) ≡ ret r
    → r < n
drawn_lt env n ts {r} below h =
    let (k, at_k, h1) = >>=-eq-ret (gen_range env 0 (length ts)) _ h in
    All-get_elem? (λ t. t < n) ts k below (unwrapped (get_elem? ts k) h1)
  where
    unwrapped : (o : Option ℕ) → unwrap o ≡ ret r → o ≡ some r
    unwrapped none e = cc
    unwrapped (some t) e = cc

tied_from_lt :
    (active : List ℕ) (m k i : ℕ) {ts : List ℕ}
    → tied_from active m k i ≡ ret ts
    → All (λ t. t < i + k) ts
unfolding tied_from
tied_from_lt active m zero i {ts} h = let e : [] ≡ ts = cc in rw (← e) tt
tied_from_lt active m (suc k) i {ts} h =
    let (q, at_q, h1) = >>=-eq-ret (load active i) _ h in
    let (rest, at_rest, h2) = >>=-eq-ret (tied_from active m k (i + 1)) _ h1 in
    let below : All (λ t. t < i + suc k) rest =
      weaken rest (tied_from_lt active m k (i + 1) at_rest) in
    elim (Bool-cases (q == m)) [
      | inl hit ↦ let e : i ∷ rest ≡ ts = ground arith in rw (← e) (omega arith, below)
      | inr miss ↦ let e : rest ≡ ts = ground arith in rw (← e) below
    ]
  where
    weaken : (ts : List ℕ) → All (λ t. t < i + 1 + k) ts → All (λ t. t < i + suc k) ts
    weaken [] h = tt
    weaken (t ∷ ts) h = (omega (arith, h.0), weaken ts h.1)

pub jsq_fallback_lt :
    (env : Env) (active : List ℕ) (n : ℕ) {r : ℕ} → jsq_fallback env active n ≡ ret r → r < n
unfolding jsq_fallback
jsq_fallback_lt env active n h =
    let (ts, at_ts, h1) = >>=-eq-ret (tied_from active (min_load active) n 0) _ h in
    let below : All (λ t. t < 0 + n) ts = tied_from_lt active (min_load active) n 0 at_ts in
    omega (arith, drawn_lt env (0 + n) ts below h1)

pub SessionAffinity_lt :
    (env : Env) (ws : List String) {r : ℕ} → SessionAffinity.select env ws ≡ ret r → r < length ws
unfolding SessionAffinity.select
SessionAffinity_lt env ws h = elim (Bool-cases (length ws == 1)) [
  | inl one ↦ ground arith
  | inr many ↦ checked_rem_lt env.random (length ws) (rw many at h)
]

pub PrefixAffinity_lt :
    (env : Env) (p : PrefixAffinity) (ws : List String) {r : ℕ}
    → PrefixAffinity.select env p ws ≡ ret r
    → r < length ws
unfolding PrefixAffinity.select
PrefixAffinity_lt env p ws h = elim (Bool-cases (length ws == 1)) [
  | inl one ↦ ground arith
  | inr many ↦ jsq_fallback_lt env p.active (length ws) (rw many at h)
]

pub PrefixAffinity_context_lt :
    (env : Env) (p : PrefixAffinity) (ws : List String) (ctx : RequestContext) {r : ℕ}
    → PrefixAffinity.select_with_context env p ws ctx ≡ ret r
    → r < length ws
unfolding PrefixAffinity.select_with_context
PrefixAffinity_context_lt env p ws ctx {r} h = elim (Bool-cases (length ws == 1)) [
  | inl one ↦ ground arith
  | inr many ↦ hashed (rw many at h)
]
  where
    hashed :
        (checked_rem (stable_hash ctx.prefix_key) (length ws) >>= λ i. load p.active i >>= λ q.
        if ltb q p.threshold then ret i else jsq_fallback env p.active (length ws))
          ≡ ret r
        → r < length ws
    hashed e =
        let (i, at_i, h1) = >>=-eq-ret (checked_rem (stable_hash ctx.prefix_key) (length ws)) _ e in
        let (q, at_q, h2) = >>=-eq-ret (load p.active i) _ h1 in
        let lt = checked_rem_lt (stable_hash ctx.prefix_key) (length ws) at_i in
        elim (Bool-cases (ltb q p.threshold)) [
          | inl less ↦ ground arith
          | inr more ↦ jsq_fallback_lt env p.active (length ws) (rw more at h2)
        ]
