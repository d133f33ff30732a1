-- ===== src/Policies/Balancer/Counts.antt =====
-- The counters of a policy against the number of requests in flight on each worker, in the arithmetic
-- of the machine word.
use tokendog.Base.{
  ℕ, ◌+◌, ◌%◌, ◌<◌, ◌≡◌, ◌≢◌, refl, ap, String, List, arith, ret, set, get_elem?-replicate, ret_eq,
  >>=-eq-ret, sym,
}
use tokendog.Base.Env.{Env}
use tokendog.Base.Words.{word_mod, wrapping_inc, wrapping_dec}
use tokendog.Config.{
  Policy, least_loaded, power_of_two, random, round_robin, session_affinity, prefix_affinity,
  load_cache_aware,
}
use tokendog.Policies.{RequestContext}
use tokendog.Policies.F64.{F64}
use tokendog.Policies.Active.{counters, fetch_add, fetch_sub}
use tokendog.Policies.Active.Ledger.{Tracks, set-Tracks}
use tokendog.Policies.LoadCacheAware
use tokendog.Policies.PrefixAffinity
use tokendog.Policies.Balancer.{
  Balancer, least, two_choices, uniform, cycle, session, prefix, cache, select_with_context,
  on_request_start, on_request_end, record_routing, make_policy,
}
use tokendog.Policies.Balancer.Room.{select_with_context_holds}

-- Each counter below `n` is the load of its worker, modulo the machine word.
abbrev pub AreLoads : ℕ → (ℕ → ℕ) → List ℕ → Type 0
AreLoads n load active = Tracks n (λ j. load j % word_mod) active

-- `more` has one request more than `load`, on worker `i`.
abbrev pub OneMore : ℕ → (ℕ → ℕ) → (ℕ → ℕ) → Type 0
OneMore i load more = (more i ≡ load i + 1) × ((j : ℕ) → j ≢ i → more j ≡ load j)

fetch_add-AreLoads :
    (n i : ℕ) (load more : ℕ → ℕ) (active : List ℕ)
    → AreLoads n load active
    → i < n
    → OneMore i load more
    → (next : List ℕ) × (fetch_add active i ≡ ret next) × AreLoads n more next
unfolding fetch_add
fetch_add-AreLoads n i load more active t lt (here, there) = (
  set active i (wrapping_inc (load i % word_mod)),
  rw (t i lt),
  set-Tracks n i _ (λ j. load j % word_mod) (λ j. more j % word_mod) active t lt (omega arith)
      (λ j ne. ap (λ x. x % word_mod) (there j ne)),
)

fetch_sub-AreLoads :
    (n i : ℕ) (load more : ℕ → ℕ) (active : List ℕ)
    → AreLoads n more active
    → i < n
    → OneMore i load more
    → (next : List ℕ) × (fetch_sub active i ≡ ret next) × AreLoads n load next
unfolding fetch_sub
fetch_sub-AreLoads n i load more active t lt (here, there) = (
  set active i (wrapping_dec (more i % word_mod)),
  rw (t i lt),
  set-Tracks n i _ (λ j. more j % word_mod) (λ j. load j % word_mod) active t lt (omega arith)
      (λ j ne. ap (λ x. x % word_mod) (sym (there j ne))),
)

module _ (f : F64) where
  -- The counters of a policy that counts agree with the load.
  abbrev pub Counts : ℕ → (ℕ → ℕ) → Balancer f → Type 0
  Counts n load (least p) = AreLoads n load p.active
  Counts n load (two_choices p) = AreLoads n load p.active
  Counts n load (prefix p) = AreLoads n load p.active
  Counts n load (cache p) = AreLoads n load p.active
  Counts n load uniform = Unit
  Counts n load (cycle p) = Unit
  Counts n load session = Unit

  pub select_with_context-Counts :
      (env : Env) (s t : Balancer f) (ws : List String) (ctx : RequestContext) (i n : ℕ)
      (load : ℕ → ℕ)
      → select_with_context f env s ws ctx ≡ ret (i, t)
      → Counts n load s
      → Counts n load t
  select_with_context-Counts env s t ws ctx i n load =
      select_with_context_holds f (Counts n load) (λ p. tt) env s t ws ctx i

  pub record_routing-Counts :
      (env : Env) (s : Balancer f) (ctx : RequestContext) (i n : ℕ) (load : ℕ → ℕ)
      → Counts n load s
      → Counts n load (record_routing f env s ctx i)
  unfolding record_routing LoadCacheAware.record_routing
  record_routing-Counts env (cache p) ctx i n load h = h
  record_routing-Counts env s ctx i n load h = h

  pub on_request_start-Counts :
      (s : Balancer f) (i n : ℕ) (load more : ℕ → ℕ)
      → Counts n load s
      → i < n
      → OneMore i load more
      → (t : Balancer f) × (on_request_start f s i ≡ ret t) × Counts n more t
  unfolding on_request_start
  on_request_start-Counts (least p) i n load more h lt one =
      let (a, e, h') = fetch_add-AreLoads n i load more p.active h lt one in
      (least (record p { active = a }), rw e, h')
  on_request_start-Counts (two_choices p) i n load more h lt one =
      let (a, e, h') = fetch_add-AreLoads n i load more p.active h lt one in
      (two_choices (record p { active = a }), rw e, h')
  on_request_start-Counts (prefix p) i n load more h lt one =
      let (a, e, h') = fetch_add-AreLoads n i load more p.active h lt one in
      (prefix (record p { active = a }), rw e, h')
  on_request_start-Counts (cache p) i n load more h lt one =
      let (a, e, h') = fetch_add-AreLoads n i load more p.active h lt one in
      (cache (record p { active = a }), rw e, h')
  on_request_start-Counts uniform i n load more h lt one = (uniform, refl, tt)
  on_request_start-Counts (cycle p) i n load more h lt one = (cycle p, refl, tt)
  on_request_start-Counts session i n load more h lt one = (session, refl, tt)

  pub on_request_end-Counts :
      (s : Balancer f) (i n : ℕ) (load more : ℕ → ℕ)
      → Counts n more s
      → i < n
      → OneMore i load more
      → (t : Balancer f) × (on_request_end f s i ≡ ret t) × Counts n load t
  unfolding on_request_end
  on_request_end-Counts (least p) i n load more h lt one =
      let (a, e, h') = fetch_sub-AreLoads n i load more p.active h lt one in
      (least (record p { active = a }), rw e, h')
  on_request_end-Counts (two_choices p) i n load more h lt one =
      let (a, e, h') = fetch_sub-AreLoads n i load more p.active h lt one in
      (two_choices (record p { active = a }), rw e, h')
  on_request_end-Counts (prefix p) i n load more h lt one =
      let (a, e, h') = fetch_sub-AreLoads n i load more p.active h lt one in
      (prefix (record p { active = a }), rw e, h')
  on_request_end-Counts (cache p) i n load more h lt one =
      let (a, e, h') = fetch_sub-AreLoads n i load more p.active h lt one in
      (cache (record p { active = a }), rw e, h')
  on_request_end-Counts uniform i n load more h lt one = (uniform, refl, tt)
  on_request_end-Counts (cycle p) i n load more h lt one = (cycle p, refl, tt)
  on_request_end-Counts session i n load more h lt one = (session, refl, tt)

  counters-AreLoads : (n : ℕ) → AreLoads n (λ j. 0) (counters n)
  counters-AreLoads n j lt = get_elem?-replicate n j 0 lt

  new-prefix_active :
      (n : ℕ) (p : PrefixAffinity.PrefixAffinity)
      → PrefixAffinity.new n ≡ ret p
      → counters n ≡ p.active
  new-prefix_active n p e = ground arith

  new-cache_active :
      (n : ℕ) (p : LoadCacheAware.LoadCacheAware f)
      → LoadCacheAware.new f n ≡ ret p
      → counters n ≡ p.active
  new-cache_active n p e = ground arith

  -- A new policy has nothing in flight.
  pub make_policy-Counts :
      (policy : Policy) (n : ℕ) (b : Balancer f)
      → make_policy f policy n ≡ ret b
      → Counts n (λ j. 0) b
  unfolding make_policy
  make_policy-Counts least_loaded n b e = rw (← ret_eq e) (counters-AreLoads n)
  make_policy-Counts power_of_two n b e = rw (← ret_eq e) (counters-AreLoads n)
  make_policy-Counts random n b e = rw (← ret_eq e) tt
  make_policy-Counts round_robin n b e = rw (← ret_eq e) tt
  make_policy-Counts session_affinity n b e = rw (← ret_eq e) tt
  make_policy-Counts prefix_affinity n b e =
      let (p, made, last) = >>=-eq-ret (PrefixAffinity.new n) _ e in
      rw (← ret_eq last) (rw (← new-prefix_active n p made) (counters-AreLoads n))
  make_policy-Counts load_cache_aware n b e =
      let (p, made, last) = >>=-eq-ret (LoadCacheAware.new f n) _ e in
      rw (← ret_eq last) (rw (← new-cache_active n p made) (counters-AreLoads n))
