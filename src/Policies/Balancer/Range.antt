-- ===== src/Policies/Balancer/Range.antt =====
-- Every policy selects a worker that exists.

use Prim.Native.Nat.{Ordering}
use tokendog.Base.{
  ℕ, zero, suc, ◌+◌, ◌≤◌, ◌<◌, ◌≡◌, refl, inl, inr, String, List, [], ◌∷◌, ◌++◌, Option, none, some,
  arith, Outcome, ret, panic, ◌>>=◌, unwrap, length, get_elem?, ◌==◌, Bool-cases, All, >>=-eq-ret,
}
use tokendog.Base.Env.{Env, gen_range}
use tokendog.Policies.{RequestContext}
use tokendog.Policies.F64.{F64}
use tokendog.Policies.Active.{load}
use tokendog.Policies.Hash.{stable_hash}
use tokendog.Policies.RoundRobin
use tokendog.Policies.RoundRobin.{checked_rem, RoundRobin}
use tokendog.Policies.SessionAffinity
use tokendog.Policies.LoadCacheAware
use tokendog.Policies.LoadCacheAware.{LoadCacheAware, keep_best, get_affinity}
use tokendog.Policies.Balancer.{
  Balancer, least, two_choices, uniform, cycle, session, prefix, cache, keep, select,
  select_with_context,
}
use tokendog.Policies.Balancer.Parts.{
  checked_rem_lt, Random_lt, RoundRobin_lt, PowerOfTwo_lt, LeastLoaded_lt, drawn_lt,
  jsq_fallback_lt, SessionAffinity_lt, PrefixAffinity_lt, PrefixAffinity_context_lt,
}

module _ (f : F64) where
  append_lt :
      (n : ℕ) (ts : List ℕ) (i : ℕ) → All (λ t. t < n) ts → i < n → All (λ t. t < n) (ts ++ i ∷ [])
  append_lt n [] i h lt = (lt, tt)
  append_lt n (t ∷ ts) i h lt = (h.0, append_lt n ts i h.1 lt)

  keep_best_lt :
      (n : ℕ) (c : Option Ordering) (x : f.Carrier) (i : ℕ) (s : f.Carrier) (ts : List ℕ)
      → i < n
      → All (λ t. t < n) ts
      → All (λ t. t < n) (keep_best f c x i (s, ts)).1
  unfolding keep_best
  keep_best_lt n (some Ordering.gt) x i s ts lt h = (lt, tt)
  keep_best_lt n (some Ordering.eq) x i s ts lt h = append_lt n ts i h lt
  keep_best_lt n (some Ordering.lt) x i s ts lt h = h
  keep_best_lt n none x i s ts lt h = h

  cache_scan_lt :
      (p : LoadCacheAware f) (affinity : List f.Carrier) (n k i : ℕ)
      (best found : f.Carrier × List ℕ)
      → i + k ≤ n
      → LoadCacheAware.scan f p affinity k i best ≡ ret found
      → All (λ t. t < n) best.1
      → All (λ t. t < n) found.1
  unfolding LoadCacheAware.scan
  cache_scan_lt p affinity n zero i best found fits h below =
      let e : best ≡ found = cc in rw (← e) below
  cache_scan_lt p affinity n (suc k) i best found fits h below =
      let (q, at_q, h1) = >>=-eq-ret (load p.active i) _ h in
      let (a, at_a, h2) = >>=-eq-ret (unwrap (get_elem? affinity i)) _ h1 in
      let x = LoadCacheAware.score f p a q in
      cache_scan_lt p affinity n k (i + 1) (keep_best f (f.partial_cmp x best.0) x i best) found
        (omega arith) h2
        (keep_best_lt n (f.partial_cmp x best.0) x i best.0 best.1 (omega arith) below)

  LoadCacheAware_lt :
      (env : Env) (p : LoadCacheAware f) (ws : List String) {r : ℕ}
      → LoadCacheAware.select f env p ws ≡ ret r
      → r < length ws
  unfolding LoadCacheAware.select
  LoadCacheAware_lt env p ws h = elim (Bool-cases (length ws == 1)) [
    | inl one ↦ ground arith
    | inr many ↦ jsq_fallback_lt env p.active (length ws) (rw many at h)
  ]

  LoadCacheAware_context_lt :
      (env : Env) (p : LoadCacheAware f) (ws : List String) (ctx : RequestContext) {r : ℕ}
      → LoadCacheAware.select_with_context f env p ws ctx ≡ ret r
      → r < length ws
  unfolding LoadCacheAware.select_with_context
  LoadCacheAware_context_lt env p ws ctx {r} h = elim (Bool-cases (length ws == 1)) [
    | inl one ↦ ground arith
    | inr many ↦ chosen (rw many at h)
  ]
    where
      affinity : List f.Carrier
      affinity = get_affinity f p.cache_dir env.now ctx.prefix_key ctx.session_id (length ws)

      chosen :
          (LoadCacheAware.scan f p affinity (length ws) 0 (f.neg_infinity, []) >>= λ best.
          gen_range env 0 (length best.1) >>= λ k. unwrap (get_elem? best.1 k))
            ≡ ret r
          → r < length ws
      chosen e =
          let (found, at_found, h1) =
            >>=-eq-ret (LoadCacheAware.scan f p affinity (length ws) 0 (f.neg_infinity, [])) _ e in
          drawn_lt env (length ws) found.1
            (cache_scan_lt p affinity (length ws) (length ws) 0 (f.neg_infinity, []) found
              (omega arith) at_found tt)
            h1

  kept_lt :
      (self b : Balancer f) (m : Outcome ℕ) (n : ℕ) {r : ℕ}
      → ((i : ℕ) → m ≡ ret i → i < n)
      → keep f self m ≡ ret (r, b)
      → r < n
  kept_lt self b (ret i) n h e = let lt = h i refl in ground arith
  kept_lt self b panic n h e = cc

  -- Whatever the policy, the state and the draws, a selection that returns gives an index below
  -- the number of workers.
  pub select_lt :
      (env : Env) (self next : Balancer f) (ws : List String) (r : ℕ)
      → select f env self ws ≡ ret (r, next)
      → r < length ws
  unfolding select
  select_lt env (least p) next ws r h = kept_lt (least p) next _ _ (λ i. LeastLoaded_lt env p ws) h
  select_lt env (two_choices p) next ws r h =
      kept_lt (two_choices p) next _ _ (λ i. PowerOfTwo_lt env p ws) h
  select_lt env uniform next ws r h = kept_lt uniform next _ _ (λ i. Random_lt env ws) h
  select_lt env (cycle p) next ws r h =
      let ((i, p'), at_i, e) = >>=-eq-ret (RoundRobin.select p ws) _ h in
      let lt = RoundRobin_lt p p' ws i at_i in ground arith
  select_lt env session next ws r h = kept_lt session next _ _ (λ i. SessionAffinity_lt env ws) h
  select_lt env (prefix p) next ws r h =
      kept_lt (prefix p) next _ _ (λ i. PrefixAffinity_lt env p ws) h
  select_lt env (cache p) next ws r h =
      kept_lt (cache p) next _ _ (λ i. LoadCacheAware_lt env p ws) h

  session_context_lt :
      (ws : List String) (ctx : RequestContext) {r : ℕ}
      → SessionAffinity.select_with_context ws ctx ≡ ret r
      → r < length ws
  unfolding SessionAffinity.select_with_context
  session_context_lt ws ctx h = checked_rem_lt (stable_hash ctx.session_id) (length ws) h

  -- The same of the selection by request context.
  pub select_with_context_lt :
      (env : Env) (self next : Balancer f) (ws : List String) (ctx : RequestContext) (r : ℕ)
      → select_with_context f env self ws ctx ≡ ret (r, next)
      → r < length ws
  unfolding select_with_context
  select_with_context_lt env session next ws ctx r h =
      kept_lt session next _ _ (λ i. session_context_lt ws ctx) h
  select_with_context_lt env (prefix p) next ws ctx r h =
      kept_lt (prefix p) next _ _ (λ i. PrefixAffinity_context_lt env p ws ctx) h
  select_with_context_lt env (cache p) next ws ctx r h =
      kept_lt (cache p) next _ _ (λ i. LoadCacheAware_context_lt env p ws ctx) h
  select_with_context_lt env (least p) next ws ctx r h = select_lt env (least p) next ws r h
  select_with_context_lt env (two_choices p) next ws ctx r h =
      select_lt env (two_choices p) next ws r h
  select_with_context_lt env uniform next ws ctx r h = select_lt env uniform next ws r h
  select_with_context_lt env (cycle p) next ws ctx r h = select_lt env (cycle p) next ws r h
