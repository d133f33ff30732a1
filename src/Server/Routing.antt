-- ===== src/Server/Routing.antt =====
-- Which worker AppState::next_worker_with_context gives a request, and what the request leaves
-- behind once it is finished. The statements hold for every lawful policy, in either mode.
pub mod Lifecycle
use tokendog.Base.{
  >>=-ret, some_eq, unwrap-eq-ret, ℕ, zero, suc, ◌≤◌, ◌<◌, ◌≡◌, ◌≢◌, refl, sym, ap, ◌∙◌, ◌↔◌, ◌⊎◌,
  String, List, [], ◌∷◌, Option, none, some, Bool, true, false, arith, Outcome, ret, panic, ◌>>=◌,
  unwrap, length, get_elem?, map, if◌then◌else◌, Bool-cases, inl, inr, >>=-eq-ret, get_elem?-some,
  lt-length_of_get_elem?, length-map, Option-cases,
}
use tokendog.Base.Env.{Env}
use tokendog.Policies.{RequestContext, LoadBalancer, IsLawful}
use tokendog.Worker.{Worker, healthy_worker_urls}
use tokendog.Worker.Health.{healthy_worker_urls-IsListed, healthy_from-empty, NoneHealthy}
use tokendog.Server.{AppState, pick, pick_from, next_worker_with_context}
use tokendog.Server.Completion.{finish_request}

module _ {S : Type 0} where
  -- The pool and the policy that serve a request.
  abbrev pub serving_pool : AppState S → Option (List Worker)
  serving_pool self = if self.k8s_mode then self.k8s_workers_pool else some self.workers

  abbrev pub serving_policy : AppState S → Option S
  serving_policy self = if self.k8s_mode then self.k8s_balancer else some self.balancer

  -- The state with another policy in service.
  abbrev pub with_policy : AppState S → S → AppState S
  with_policy self next =
      if self.k8s_mode
      then record self { k8s_balancer = some next }
      else record self { balancer = next }

module _ {S : Type 0} (lb : LoadBalancer S) where
  -- The choice that the context makes.
  abbrev pub choose_for : Env → RequestContext → S → List String → Outcome (ℕ × S)
  choose_for env ctx policy urls = lb.select_with_context env policy urls ctx

  module _ (choose : S → List String → Outcome (ℕ × S)) where
    -- What a pick that found a worker went through.
    pub record IsPicked (healthy : List (ℕ × String)) (policy next : S) (found : ℕ × String)
        : Type 0 where
      pub index : ℕ
      pub chosen : S
      pub selected : choose policy (map (λ w. w.1) healthy) ≡ ret (index, chosen)
      pub listed : get_elem? healthy index ≡ some found
      pub started : lb.on_request_start chosen found.0 ≡ ret next

    picked :
        (healthy : List (ℕ × String)) (policy next : S) (found : ℕ × String) (k : ℕ) (chosen : S)
        (entry : ℕ × String) (started : S)
        → choose policy (map (λ w. w.1) healthy) ≡ ret (k, chosen)
        → unwrap (get_elem? healthy k) ≡ ret entry
        → lb.on_request_start chosen entry.0 ≡ ret started
        → ◌≡◌ {A = Outcome (Option (ℕ × String) × S)}
            (ret (some entry, started))
            (ret (some found, next))
        → IsPicked healthy policy next found
    picked healthy policy next found k chosen entry started selected listed notified e =
        let same : entry ≡ found = cc in
        let same' : started ≡ next = cc in
        record {
          index = k;
          chosen = chosen;
          selected = selected;
          listed = unwrap-eq-ret (get_elem? healthy k) listed ∙ ap some same;
          started = rw (← same, ← same') notified;
        }

    pub pick-IsPicked :
        (healthy : List (ℕ × String)) (policy next : S) (found : ℕ × String)
        → pick lb choose healthy policy ≡ ret (some found, next)
        → IsPicked healthy policy next found
    unfolding pick
    pick-IsPicked [] policy next found e = cc
    pick-IsPicked (first ∷ others) policy next found e =
        let (c, selected, e1) = >>=-eq-ret (choose policy (map (λ w. w.1) (first ∷ others))) _ e in
        let (entry, listed, e2) = >>=-eq-ret (unwrap (get_elem? (first ∷ others) c.0)) _ e1 in
        let (started, notified, e3) = >>=-eq-ret (lb.on_request_start c.1 entry.0) _ e2 in
        picked (first ∷ others) policy next found c.0 c.1 entry started selected listed notified e3

    pub pick-none :
        (healthy : List (ℕ × String)) (policy next : S)
        → pick lb choose healthy policy ≡ ret (none, next)
        → healthy ≡ []
    unfolding pick
    pick-none [] policy next e = refl
    pick-none (first ∷ others) policy next e =
        let (c, selected, e1) = >>=-eq-ret (choose policy (map (λ w. w.1) (first ∷ others))) _ e in
        let (entry, listed, e2) = >>=-eq-ret (unwrap (get_elem? (first ∷ others) c.0)) _ e1 in
        let (started, notified, e3) = >>=-eq-ret (lb.on_request_start c.1 entry.0) _ e2 in
        absurd (found_some entry started e3)
      where
        found_some :
            (entry : ℕ × String) (t : S)
            → ◌≡◌ {A = Outcome (Option (ℕ × String) × S)} (ret (some entry, t)) (ret (none, next))
            → ⊥
        found_some entry t e' = cc

  next_worker_with_context_lem :
      (env : Env) (self : AppState S) (ctx : RequestContext) (workers : List Worker) (policy : S)
      → serving_pool self ≡ some workers
      → serving_policy self ≡ some policy
      → next_worker_with_context lb env self ctx ≡ (
          pick lb (choose_for env ctx) (healthy_worker_urls workers) policy >>= λ r.
          ret (r.0, with_policy self r.1))
  unfolding next_worker_with_context
  next_worker_with_context_lem env self ctx workers policy e h = elim (Bool-cases self.k8s_mode) [
    | inl k8s ↦
        let at_pool : self.k8s_workers_pool ≡ some workers = rw k8s at e in
        let at_policy : self.k8s_balancer ≡ some policy = rw k8s at h in
        rw (k8s, at_pool, at_policy)
          (>>=-ret (pick lb (choose_for env ctx) (healthy_worker_urls workers) policy) _ _)
    | inr static ↦
        let at_pool : self.workers ≡ workers = some_eq (rw static at e) in
        let at_policy : self.balancer ≡ policy = some_eq (rw static at h) in
        rw (static, at_pool, at_policy)
  ]

  -- What a call that returns went through, where a pool and a policy serve.
  pub next_worker_with_context-pick :
      (env : Env) (self t : AppState S) (ctx : RequestContext) (workers : List Worker) (policy : S)
      (found : Option (ℕ × String))
      → serving_pool self ≡ some workers
      → serving_policy self ≡ some policy
      → next_worker_with_context lb env self ctx ≡ ret (found, t)
      → (next : S) × (pick lb (choose_for env ctx) (healthy_worker_urls workers) policy
          ≡ ret (found, next))
        × (t ≡ with_policy self next)
  next_worker_with_context-pick env self t ctx workers policy found e h run =
      let (r, run', same) =
        >>=-eq-ret (pick lb (choose_for env ctx) (healthy_worker_urls workers) policy) _
          (sym (next_worker_with_context_lem env self ctx workers policy e h) ∙ run) in
      parts r run' same
    where
      parts :
          (r : Option (ℕ × String) × S)
          → pick lb (choose_for env ctx) (healthy_worker_urls workers) policy ≡ ret r
          → ◌≡◌ {A = Outcome (Option (ℕ × String) × AppState S)}
              (ret (r.0, with_policy self r.1))
              (ret (found, t))
          → (next : S) × (pick lb (choose_for env ctx) (healthy_worker_urls workers) policy
              ≡ ret (found, next))
            × (t ≡ with_policy self next)
      parts (found', next) run' same =
          let same_found : found' ≡ found = cc in
          let same_state : t ≡ with_policy self next = cc in
          (next, rw (← same_found) run', same_state)

  -- A request is given a healthy worker of the serving pool, by its index in that pool and its URL.
  pub next_worker_with_context-IsHealthy :
      (env : Env) (self t : AppState S) (ctx : RequestContext) (workers : List Worker) (policy : S)
      (i : ℕ) (url : String)
      → serving_pool self ≡ some workers
      → serving_policy self ≡ some policy
      → next_worker_with_context lb env self ctx ≡ ret (some (i, url), t)
      → (w : Worker) × (get_elem? workers i ≡ some w) × (w.url ≡ url) × (w.healthy ≡ true)
  next_worker_with_context-IsHealthy env self t ctx workers policy i url e h run =
      let (next, picking, _) =
        next_worker_with_context-pick env self t ctx workers policy (some (i, url)) e h run in
      let p =
        pick-IsPicked (choose_for env ctx) (healthy_worker_urls workers) policy next (i, url)
          picking in
      healthy_worker_urls-IsListed workers p.index i url p.listed

  with_policy_self :
      (self : AppState S) (policy : S)
      → serving_policy self ≡ some policy
      → with_policy self policy ≡ self
  with_policy_self self policy h = elim (Bool-cases self.k8s_mode) [
    | inl k8s ↦ let at : self.k8s_balancer ≡ some policy = rw k8s at h in rw (k8s, at)
    | inr static ↦ let at : self.balancer ≡ policy = some_eq (rw static at h) in rw (static, at)
  ]

  -- A request is refused exactly when no worker of the serving pool is healthy, and a refusal leaves
  -- the state as it is.
  pub next_worker_with_context-none :
      (env : Env) (self : AppState S) (ctx : RequestContext) (workers : List Worker) (policy : S)
      → serving_pool self ≡ some workers
      → serving_policy self ≡ some policy
      → (((t : AppState S) × (next_worker_with_context lb env self ctx ≡ ret (none, t)))
          ↔ NoneHealthy workers)
        × (NoneHealthy workers → next_worker_with_context lb env self ctx ≡ ret (none, self))
  unfolding pick
  next_worker_with_context-none env self ctx workers policy e h = (
    (
      λ (t, run).
          let (next, picking, _) =
            next_worker_with_context-pick env self t ctx workers policy none e h run in
          (healthy_from-empty 0 workers).0
            (pick-none (choose_for env ctx) (healthy_worker_urls workers) policy next picking),
      λ down. (self, refused down),
    ),
    refused,
  )
    where
      refused : NoneHealthy workers → next_worker_with_context lb env self ctx ≡ ret (none, self)
      refused down =
          let empty = (healthy_from-empty 0 workers).1 down in
          next_worker_with_context_lem env self ctx workers policy e h
          ∙ rw (empty, with_policy_self self policy h)
