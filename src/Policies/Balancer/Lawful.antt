-- ===== src/Policies/Balancer/Lawful.antt =====
-- The seven policies implement the trait lawfully, and make_policy gives them room.
use tokendog.Base.{
  ltb, true, ◌⊎◌, inl, inr, ◌↔◌, ℕ, ◌<◌, ◌≡◌, refl, List, some, arith, ret, panic, >>=-eq-ret,
  ret_eq, sym, ◌>>=◌,
}
use tokendog.Base.Env.{Env}
use tokendog.Config.{
  Policy, least_loaded, power_of_two, random, round_robin, session_affinity, prefix_affinity,
  load_cache_aware,
}
use tokendog.Policies.{RequestContext, IsLawful}
use tokendog.Policies.F64.{F64}
use tokendog.Policies.Active.{counters, AreWords, fetch_add, fetch_sub, fetch_sub-fetch_add}
use tokendog.Policies.LoadCacheAware
use tokendog.Policies.LoadCacheAware.{empty_directory}
use tokendog.Policies.Balancer.{
  Balancer, least, two_choices, uniform, cycle, session, prefix, cache, on_request_start,
  on_request_end, record_routing, balancer_trait, make_policy,
}
use tokendog.Policies.Balancer.Range.{select_lt, select_with_context_lt}
use tokendog.Policies.Balancer.Room.{
  Room, counters-HasCounters, select_keeps, select_with_context_keeps, start_fits, end_fits,
  record_keeps,
}

module _ (f : F64) where
  -- A request that started on a counting policy, and the counters it leaves.
  started_on :
      (wrap : List ℕ → Balancer f) (active : List ℕ) (i : ℕ) (t : Balancer f)
      → AreWords active
      → (fetch_add active i >>= λ a. ret (wrap a)) ≡ ret t
      → (a : List ℕ) × (t ≡ wrap a) × (fetch_sub a i ≡ ret active)
  started_on wrap active i t words h =
      let (a, e, same) = >>=-eq-ret (fetch_add active i) _ h in
      (a, sym (ret_eq same), fetch_sub-fetch_add active i words e)

  pub end_after_start :
      (s t : Balancer f) (i n : ℕ)
      → Room f s n
      → on_request_start f s i ≡ ret t
      → on_request_end f t i ≡ ret s
  unfolding on_request_start on_request_end
  end_after_start (least p) t i n r h =
      let (a, same, back) = started_on (λ a. least (record p { active = a })) p.active i t r.1 h in
      rw same (rw back)
  end_after_start (two_choices p) t i n r h =
      let (a, same, back) =
        started_on (λ a. two_choices (record p { active = a })) p.active i t r.1 h in
      rw same (rw back)
  end_after_start (prefix p) t i n r h =
      let (a, same, back) = started_on (λ a. prefix (record p { active = a })) p.active i t r.1 h in
      rw same (rw back)
  end_after_start (cache p) t i n r h =
      let (a, same, back) = started_on (λ a. cache (record p { active = a })) p.active i t r.1 h in
      rw same (rw back)
  end_after_start uniform t i n r h = let eq : uniform ≡ t = cc in rw (← eq)
  end_after_start (cycle p) t i n r h = let eq : cycle p ≡ t = cc in rw (← eq)
  end_after_start session t i n r h = let eq : session ≡ t = cc in rw (← eq)

  pub end_after_record :
      (env : Env) (s t : Balancer f) (ctx : RequestContext) (i n : ℕ)
      → Room f s n
      → on_request_start f s i ≡ ret t
      → on_request_end f (record_routing f env t ctx i) i ≡ ret (record_routing f env s ctx i)
  unfolding on_request_start on_request_end record_routing LoadCacheAware.record_routing
  end_after_record env (cache p) t ctx i n r h =
      let (a, same, back) = started_on (λ a. cache (record p { active = a })) p.active i t r.1 h in
      rw same (rw back)
  end_after_record env (least p) t ctx i n r h =
      let (a, same, back) = started_on (λ a. least (record p { active = a })) p.active i t r.1 h in
      rw same (rw back)
  end_after_record env (two_choices p) t ctx i n r h =
      let (a, same, back) =
        started_on (λ a. two_choices (record p { active = a })) p.active i t r.1 h in
      rw same (rw back)
  end_after_record env (prefix p) t ctx i n r h =
      let (a, same, back) = started_on (λ a. prefix (record p { active = a })) p.active i t r.1 h in
      rw same (rw back)
  end_after_record env uniform t ctx i n r h = let eq : uniform ≡ t = cc in rw (← eq)
  end_after_record env (cycle p) t ctx i n r h = let eq : cycle p ≡ t = cc in rw (← eq)
  end_after_record env session t ctx i n r h = let eq : session ≡ t = cc in rw (← eq)

  abbrev pub balancer_lawful : IsLawful (balancer_trait f)
  balancer_lawful = record {
    Room = Room f;
    select_lt = λ env s t ws i. select_lt f env s t ws i;
    select_with_context_lt = λ env s t ws ctx i. select_with_context_lt f env s t ws ctx i;
    select_keeps = select_keeps f;
    select_with_context_keeps = select_with_context_keeps f;
    start_fits = start_fits f;
    end_fits = end_fits f;
    end_after_start = end_after_start;
    end_after_record = end_after_record;
    record_keeps = record_keeps f;
  }

  -- With a worker, and `Duration::from_secs_f64(0.0)` defined, every policy can be made, and it has
  -- a counter for each worker.
  pub make_policy-Room :
      (policy : Policy) (n nanos : ℕ)
      → 0 < n
      → f.from_secs_f64 (f.decimal 0 1) ≡ some nanos
      → (b : Balancer f) × (make_policy f policy n ≡ ret b) × Room f b n
  unfolding make_policy
  make_policy-Room least_loaded n nanos pos secs = (_, refl, counters-HasCounters n)
  make_policy-Room power_of_two n nanos pos secs = (_, refl, counters-HasCounters n)
  make_policy-Room random n nanos pos secs = (_, refl, tt)
  make_policy-Room round_robin n nanos pos secs = (_, refl, tt)
  make_policy-Room session_affinity n nanos pos secs = (_, refl, tt)
  make_policy-Room prefix_affinity n nanos pos secs =
      let test : ltb 0 n ≡ true = ground arith in
      (prefix (record { active = counters n; threshold = 10 }), rw test, counters-HasCounters n)
  make_policy-Room load_cache_aware n nanos pos secs =
      let test : ltb 0 n ≡ true = ground arith in
      (
        cache (record {
          active = counters n;
          cache_dir = empty_directory nanos;
          alpha = f.decimal 7 1;
          beta = f.decimal 3 1;
        }),
        rw (test, secs),
        counters-HasCounters n,
      )

  -- Without a worker the two policies that assert a worker panic, and the others are made.
  make_policy_without_workers :
      (policy : Policy)
      → (make_policy f policy 0 ≡ panic)
        ↔ ((policy ≡ prefix_affinity) ⊎ (policy ≡ load_cache_aware))
  unfolding make_policy
  make_policy_without_workers least_loaded = (λ e. ground arith, λ e. ground arith)
  make_policy_without_workers power_of_two = (λ e. ground arith, λ e. ground arith)
  make_policy_without_workers random = (λ e. ground arith, λ e. ground arith)
  make_policy_without_workers round_robin = (λ e. ground arith, λ e. ground arith)
  make_policy_without_workers session_affinity = (λ e. ground arith, λ e. ground arith)
  make_policy_without_workers prefix_affinity = (λ e. inl refl, λ e. refl)
  make_policy_without_workers load_cache_aware = (λ e. inr refl, λ e. refl)
