-- ===== src/Policies/Balancer/Room.antt =====
-- Room for the requests on n workers, and that the operations of the policies keep it.
use tokendog.Base.{
  ℕ, ◌≤◌, ◌<◌, ◌≡◌, refl, String, List, arith, Outcome, ret, panic, length, >>=-eq-ret,
  length-replicate,
}
use tokendog.Base.Env.{Env}
use tokendog.Policies.{RequestContext}
use tokendog.Policies.F64.{F64}
use tokendog.Policies.Active.{
  counters, AreWords, AreWords-counters, fetch_add, fetch_sub, fetch_add_in_range,
  fetch_sub_in_range, fetch_add-AreWords, fetch_sub-AreWords,
}
use tokendog.Policies.RoundRobin
use tokendog.Policies.RoundRobin.{RoundRobin}
use tokendog.Policies.LoadCacheAware
use tokendog.Policies.LoadCacheAware.{empty_directory}
use tokendog.Policies.Balancer.{
  Balancer, least, two_choices, uniform, cycle, session, prefix, cache, keep, select,
  select_with_context, on_request_start, on_request_end, record_routing, balancer_trait,
}

-- A counter for each of `n` workers.
abbrev pub HasCounters : List ℕ → ℕ → Type 0
HasCounters active n = (n ≤ length active) × AreWords active

pub counters-HasCounters : (n : ℕ) → HasCounters (counters n) n
counters-HasCounters n = (omega (arith, length-replicate {A = ℕ} n 0), AreWords-counters n)

module _ (f : F64) where
  abbrev pub Room : Balancer f → ℕ → Type 0
  Room (least p) n = HasCounters p.active n
  Room (two_choices p) n = HasCounters p.active n
  Room (prefix p) n = HasCounters p.active n
  Room (cache p) n = HasCounters p.active n
  Room uniform n = Unit
  Room (cycle p) n = Unit
  Room session n = Unit

  kept : (self t : Balancer f) (m : Outcome ℕ) (i : ℕ) → keep f self m ≡ ret (i, t) → self ≡ t
  kept self t (ret j) i e = cc
  kept self t panic i e = cc

  -- Only the round-robin counter changes in a selection: what holds of the policy before, and of every
  -- round-robin policy, holds of the policy after.
  module _ (P : Balancer f → Type 0) (turning : (p : RoundRobin) → P (cycle p)) where
    keep_holds :
        (self t : Balancer f) (m : Outcome ℕ) (i : ℕ) → keep f self m ≡ ret (i, t) → P self → P t
    keep_holds self t m i e h = rw (← kept self t m i e) h

    select_holds :
        (env : Env) (s t : Balancer f) (ws : List String) (i : ℕ)
        → select f env s ws ≡ ret (i, t)
        → P s
        → P t
    unfolding select
    select_holds env (least p) t ws i e h = keep_holds (least p) t _ i e h
    select_holds env (two_choices p) t ws i e h = keep_holds (two_choices p) t _ i e h
    select_holds env uniform t ws i e h = keep_holds uniform t _ i e h
    select_holds env (cycle p) t ws i e h =
        let ((j, q), _, last) = >>=-eq-ret (RoundRobin.select p ws) _ e in
        let same : cycle q ≡ t = cc in rw (← same) (turning q)
    select_holds env session t ws i e h = keep_holds session t _ i e h
    select_holds env (prefix p) t ws i e h = keep_holds (prefix p) t _ i e h
    select_holds env (cache p) t ws i e h = keep_holds (cache p) t _ i e h

    pub select_with_context_holds :
        (env : Env) (s t : Balancer f) (ws : List String) (ctx : RequestContext) (i : ℕ)
        → select_with_context f env s ws ctx ≡ ret (i, t)
        → P s
        → P t
    unfolding select_with_context
    select_with_context_holds env session t ws ctx i e h = keep_holds session t _ i e h
    select_with_context_holds env (prefix p) t ws ctx i e h = keep_holds (prefix p) t _ i e h
    select_with_context_holds env (cache p) t ws ctx i e h = keep_holds (cache p) t _ i e h
    select_with_context_holds env (least p) t ws ctx i e h = select_holds env (least p) t ws i e h
    select_with_context_holds env (two_choices p) t ws ctx i e h =
        select_holds env (two_choices p) t ws i e h
    select_with_context_holds env uniform t ws ctx i e h = select_holds env uniform t ws i e h
    select_with_context_holds env (cycle p) t ws ctx i e h = select_holds env (cycle p) t ws i e h

  pub select_keeps :
      (env : Env) (s t : Balancer f) (ws : List String) (i n : ℕ)
      → select f env s ws ≡ ret (i, t)
      → Room s n
      → Room t n
  select_keeps env s t ws i n = select_holds (λ s. Room s n) (λ p. tt) env s t ws i

  pub select_with_context_keeps :
      (env : Env) (s t : Balancer f) (ws : List String) (ctx : RequestContext) (i n : ℕ)
      → select_with_context f env s ws ctx ≡ ret (i, t)
      → Room s n
      → Room t n
  select_with_context_keeps env s t ws ctx i n =
      select_with_context_holds (λ s. Room s n) (λ p. tt) env s t ws ctx i

  add_in_room :
      (active : List ℕ) (i n : ℕ)
      → HasCounters active n
      → i < n
      → (next : List ℕ) × (fetch_add active i ≡ ret next) × HasCounters next n
  add_in_room active i n (fits, words) lt =
      let (q, at, e) = fetch_add_in_range active i (omega arith) in
      let (w, long) = fetch_add-AreWords active i words e in (_, e, (omega arith, w))

  sub_in_room :
      (active : List ℕ) (i n : ℕ)
      → HasCounters active n
      → i < n
      → (next : List ℕ) × (fetch_sub active i ≡ ret next) × HasCounters next n
  sub_in_room active i n (fits, words) lt =
      let (q, at, e) = fetch_sub_in_range active i (omega arith) in
      let (w, long) = fetch_sub-AreWords active i words e in (_, e, (omega arith, w))

  pub start_fits :
      (s : Balancer f) (i n : ℕ)
      → Room s n
      → i < n
      → (t : Balancer f) × (on_request_start f s i ≡ ret t) × Room t n
  unfolding on_request_start
  start_fits (least p) i n r lt =
      let (a, e, h) = add_in_room p.active i n r lt in (least (record p { active = a }), rw e, h)
  start_fits (two_choices p) i n r lt =
      let (a, e, h) = add_in_room p.active i n r lt in
      (two_choices (record p { active = a }), rw e, h)
  start_fits (prefix p) i n r lt =
      let (a, e, h) = add_in_room p.active i n r lt in (prefix (record p { active = a }), rw e, h)
  start_fits (cache p) i n r lt =
      let (a, e, h) = add_in_room p.active i n r lt in (cache (record p { active = a }), rw e, h)
  start_fits uniform i n r lt = (uniform, refl, tt)
  start_fits (cycle p) i n r lt = (cycle p, refl, tt)
  start_fits session i n r lt = (session, refl, tt)

  pub end_fits :
      (s : Balancer f) (i n : ℕ)
      → Room s n
      → i < n
      → (t : Balancer f) × (on_request_end f s i ≡ ret t) × Room t n
  unfolding on_request_end
  end_fits (least p) i n r lt =
      let (a, e, h) = sub_in_room p.active i n r lt in (least (record p { active = a }), rw e, h)
  end_fits (two_choices p) i n r lt =
      let (a, e, h) = sub_in_room p.active i n r lt in
      (two_choices (record p { active = a }), rw e, h)
  end_fits (prefix p) i n r lt =
      let (a, e, h) = sub_in_room p.active i n r lt in (prefix (record p { active = a }), rw e, h)
  end_fits (cache p) i n r lt =
      let (a, e, h) = sub_in_room p.active i n r lt in (cache (record p { active = a }), rw e, h)
  end_fits uniform i n r lt = (uniform, refl, tt)
  end_fits (cycle p) i n r lt = (cycle p, refl, tt)
  end_fits session i n r lt = (session, refl, tt)

  pub record_keeps :
      (env : Env) (s : Balancer f) (ctx : RequestContext) (i n : ℕ)
      → Room s n
      → Room (record_routing f env s ctx i) n
  unfolding record_routing LoadCacheAware.record_routing
  record_keeps env (cache p) ctx i n r = r
  record_keeps env s ctx i n r = r
