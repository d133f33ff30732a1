-- ===== src/Running/Balanced.antt =====
-- The counters of the policies against the requests in flight, and the calls that the handlers make.
use mathlib.Core.Path.{fun_ext}
use tokendog.Base.{
  ℕ, ◌≤◌, ◌<◌, ◌≡◌, ◌≢◌, refl, sym, ap, subst, ◌∙◌, String, List, ◌∷◌, Option, none, some, ret,
  ret_eq, length, arith, inl, inr, Option-cases, lt-length_of_get_elem?,
}
use tokendog.Base.Env.{Env}
use tokendog.Policies.{RequestContext}
use tokendog.Policies.F64.{F64}
use tokendog.Policies.Balancer.{Balancer, balancer_trait, on_request_start, select_with_context}
use tokendog.Policies.Balancer.Counts.{
  Counts, select_with_context-Counts, record_routing-Counts, on_request_start-Counts,
  on_request_end-Counts,
}
use tokendog.Server.{AppState}
use tokendog.Server.Stages.Requests.{next-IsGiven}
use tokendog.Running.Routes.{Route, next_on, finish_on, record_on}
use tokendog.Running.Steps.{Running, Fits}
use tokendog.Running.Stages.{stage, stage-IsStage, pool-put, policy-put_other}
use tokendog.Running.Loads.{
  Route-cases, load_on, OneMore-bound, OneMore-fewer, load_on-cons, load_on-cons_other,
}
use tokendog.Running.Calls.{finish_on-some, finish_on-none, record_on-some, record_on-none}
use tokendog.Worker.{Worker}
use tokendog.Worker.Health.{healthy_worker_urls-IsListed}

module _ (f : F64) (capacity : Route → ℕ) where
  abbrev pub CountsIn : ℕ → (ℕ → ℕ) → Option (Balancer f) → Type 0
  CountsIn n load none = Unit
  CountsIn n load (some p) = Counts f n load p

  -- The pool fits, each counter is the number of requests in flight modulo the machine word, and the
  -- workers in flight have a counter.
  abbrev pub Agrees : ℕ → Option (List Worker) → Option (Balancer f) → (ℕ → ℕ) → Type 0
  Agrees n pool policy load = Fits n pool × CountsIn n load policy × ((i : ℕ) → 0 < load i → i < n)

  abbrev pub IsBalancedOn : Route → AppState (Balancer f) → (ℕ → ℕ) → Type 0
  IsBalancedOn r self load = Agrees (capacity r) ((stage r).pool self) ((stage r).policy self) load

  abbrev pub IsBalanced : Running (Balancer f) → Type 0
  IsBalanced a = (r : Route) → IsBalancedOn r a.state (load_on a.in_flight r)

  CountsIn-some :
      (n : ℕ) (load : ℕ → ℕ) (o : Option (Balancer f)) (p : Balancer f)
      → o ≡ some p
      → CountsIn n load o
      → Counts f n load p
  CountsIn-some n load o p e h = subst (CountsIn n load) e h

  Agrees-same :
      (n : ℕ) (pool pool' : Option (List Worker)) (policy policy' : Option (Balancer f))
      (load load' : ℕ → ℕ)
      → pool' ≡ pool
      → policy' ≡ policy
      → ((j : ℕ) → load' j ≡ load j)
      → Agrees n pool policy load
      → Agrees n pool' policy' load'
  Agrees-same n pool pool' policy policy' load load' e h same agrees =
      let at : load' ≡ load = fun_ext same in rw (e, h, at) agrees

  -- A route gets another policy, and the requests in flight of the other routes stay.
  put_balanced :
      (r : Route) (self : AppState (Balancer f)) (l l' : List (Route × ℕ)) (next : Balancer f)
      → ((q : Route) → IsBalancedOn q self (load_on l q))
      → Counts f (capacity r) (load_on l' r) next
      → ((i : ℕ) → 0 < load_on l' r i → i < capacity r)
      → ((q : Route) (j : ℕ) → q ≢ r → load_on l' q j ≡ load_on l q j)
      → (q : Route) → IsBalancedOn q ((stage r).put self (some next)) (load_on l' q)
  put_balanced r self l l' next h counted bound others q = elim (Route-cases q r) [
    | inl same ↦
        subst (λ x. IsBalancedOn x ((stage r).put self (some next)) (load_on l' x)) (sym same)
          (
            subst (Fits (capacity r)) (sym (pool-put r r self (some next))) (h r).0,
            subst (CountsIn (capacity r) (load_on l' r))
                (sym ((stage-IsStage (balancer_trait f) r).policy-put self next)) counted,
            bound,
          )
    | inr other ↦
        Agrees-same (capacity q) _ _ _ _ (load_on l q) (load_on l' q)
          (pool-put q r self (some next)) (policy-put_other q r self (some next) other)
          (λ j. others q j other) (h q)
  ]

  -- A state with the same pools and policies, and another list with the same loads.
  pub same_balanced :
      (self t : AppState (Balancer f)) (l l' : List (Route × ℕ))
      → ((q : Route) → IsBalancedOn q self (load_on l q))
      → t ≡ self
      → ((q : Route) (j : ℕ) → load_on l' q j ≡ load_on l q j)
      → (q : Route) → IsBalancedOn q t (load_on l' q)
  same_balanced self t l l' h e same q =
      Agrees-same (capacity q) _ _ _ _ (load_on l q) (load_on l' q) (ap ((stage q).pool) e)
        (ap ((stage q).policy) e) (same q) (h q)

  -- A selection counts nothing.
  pub selected_balanced :
      (r : Route) (env : Env) (ctx : RequestContext) (urls : List String) (k : ℕ)
      (p chosen : Balancer f) (self : AppState (Balancer f)) (l : List (Route × ℕ))
      → ((q : Route) → IsBalancedOn q self (load_on l q))
      → (stage r).policy self ≡ some p
      → select_with_context f env p urls ctx ≡ ret (k, chosen)
      → (q : Route) → IsBalancedOn q ((stage r).put self (some chosen)) (load_on l q)
  selected_balanced r env ctx urls k p chosen self l h at run =
      let before = CountsIn-some (capacity r) (load_on l r) _ p at (h r).1 in
      put_balanced r self l l chosen h
        (select_with_context-Counts f env p chosen urls ctx k (capacity r) (load_on l r) run before)
        (h r).2 (λ q j ne. refl)

  -- The count of its start puts the request in flight.
  pub started_balanced :
      (r : Route) (i : ℕ) (p next : Balancer f) (self : AppState (Balancer f))
      (l : List (Route × ℕ))
      → ((q : Route) → IsBalancedOn q self (load_on l q))
      → (stage r).policy self ≡ some p
      → i < capacity r
      → on_request_start f p i ≡ ret next
      → (q : Route) → IsBalancedOn q ((stage r).put self (some next)) (load_on ((r, i) ∷ l) q)
  started_balanced r i p next self l h at lt run =
      let before = CountsIn-some (capacity r) (load_on l r) _ p at (h r).1 in
      let one = load_on-cons l r i in
      let (next', started, counted) =
        on_request_start-Counts f p i (capacity r) (load_on l r) (load_on ((r, i) ∷ l) r) before lt
          one in
      let same : next' ≡ next = ret_eq (sym started ∙ run) in
      put_balanced r self l ((r, i) ∷ l) next h
        (subst (Counts f (capacity r) (load_on ((r, i) ∷ l) r)) same counted)
        (OneMore-bound (capacity r) i (load_on l r) (load_on ((r, i) ∷ l) r) one lt (h r).2)
        (λ q j ne. load_on-cons_other l q r i j ne)

  -- A request that is given a worker is selected and started.
  pub given_balanced :
      (r : Route) (env : Env) (ctx : RequestContext) (i : ℕ) (url : String)
      (self t : AppState (Balancer f)) (l : List (Route × ℕ))
      → ((q : Route) → IsBalancedOn q self (load_on l q))
      → next_on (balancer_trait f) r env self ctx ≡ ret (some (i, url), t)
      → (q : Route) → IsBalancedOn q t (load_on ((r, i) ∷ l) q)
  given_balanced r env ctx i url self t l h run =
      let is = stage-IsStage (balancer_trait f) r in
      let g = next-IsGiven (balancer_trait f) (stage r) _ _ _ is env self t ctx (i, url) run in
      let (w, there, _, _) = healthy_worker_urls-IsListed g.workers g.index i url g.listed in
      let fits : length g.workers ≤ capacity r = subst (Fits (capacity r)) g.served (h r).0 in
      let in_pool = lt-length_of_get_elem? g.workers i there in
      let lt : i < capacity r = omega arith in
      let chosen =
        selected_balanced r env ctx _ g.index g.before g.chosen self l h g.policy_before
          g.selected in
      let started =
        started_balanced r i g.chosen g.started ((stage r).put self (some g.chosen)) l chosen
          (is.policy-put self g.chosen) lt g.counted in
      subst (λ s. (q : Route) → IsBalancedOn q s (load_on ((r, i) ∷ l) q))
        (is.put-put self g.chosen g.started ∙ sym g.after) started

  -- A request in flight can end, and its end leaves the others counted.
  pub finish_balanced :
      (r : Route) (i : ℕ) (self : AppState (Balancer f)) (l : List (Route × ℕ))
      → ((q : Route) → IsBalancedOn q self (load_on ((r, i) ∷ l) q))
      → (t : AppState (Balancer f)) × (finish_on (balancer_trait f) r self i ≡ ret t)
        × ((q : Route) → IsBalancedOn q t (load_on l q))
  finish_balanced r i self l h = elim (Option-cases ((stage r).policy self)) [
    | inl absent ↦ (
      self,
      finish_on-none (balancer_trait f) r self i absent,
      λ q. elim (Route-cases q r) [
        | inl same ↦
            subst (λ x. IsBalancedOn x self (load_on l x)) (sym same)
              ((h r).0, subst (CountsIn (capacity r) (load_on l r)) (sym absent) tt, fewer)
        | inr other ↦
            Agrees-same (capacity q) _ _ _ _ (load_on ((r, i) ∷ l) q) (load_on l q) refl refl
              (λ j. sym (load_on-cons_other l q r i j other)) (h q)
      ],
    )
    | inr (p, at) ↦
        let (here', others) = load_on-cons l r i in
        let lt : i < capacity r = (h r).2 i (omega arith) in
        let before = CountsIn-some (capacity r) (load_on ((r, i) ∷ l) r) _ p at (h r).1 in
        let (next, ended, counted) =
          on_request_end-Counts f p i (capacity r) (load_on l r) (load_on ((r, i) ∷ l) r) before lt
            (load_on-cons l r i) in
        (
          _,
          finish_on-some (balancer_trait f) r self i p next at ended,
          put_balanced r self ((r, i) ∷ l) l next h counted fewer
              (λ q j ne. sym (load_on-cons_other l q r i j ne)),
        )
  ]
    where
      fewer : (j : ℕ) → 0 < load_on l r j → j < capacity r
      fewer =
          OneMore-fewer (capacity r) i (load_on l r) (load_on ((r, i) ∷ l) r) (load_on-cons l r i)
            (h r).2

  pub recorded_balanced :
      (r : Route) (env : Env) (ctx : RequestContext) (i : ℕ) (self : AppState (Balancer f))
      (l : List (Route × ℕ))
      → ((q : Route) → IsBalancedOn q self (load_on l q))
      → (q : Route) → IsBalancedOn q (record_on (balancer_trait f) r env self ctx i) (load_on l q)
  recorded_balanced r env ctx i self l h = elim (Option-cases ((stage r).policy self)) [
    | inl absent ↦
        same_balanced self _ l l h (record_on-none (balancer_trait f) r env self ctx i absent)
          (λ q j. refl)
    | inr (p, at) ↦
        let counted = CountsIn-some (capacity r) (load_on l r) _ p at (h r).1 in
        subst (λ s. (q : Route) → IsBalancedOn q s (load_on l q))
          (sym (record_on-some (balancer_trait f) r env self ctx i p at))
          (put_balanced r self l l _ h
            (record_routing-Counts f env p ctx i (capacity r) (load_on l r) counted) (h r).2
            (λ q j ne. refl))
  ]
