-- ===== src/Server/Routing/Lifecycle.antt =====
-- A request from the worker it is given to its end, for every lawful policy and in either mode.
use tokendog.Base.{
  ℕ, ◌<◌, ◌≡◌, ◌≢◌, refl, ◌∙◌, String, List, [], ◌∷◌, some, arith, Outcome, ret, length, get_elem?,
  map, Bool-cases, inl, inr, get_elem?-some, lt-length_of_get_elem?, length-map,
}
use tokendog.Base.Env.{Env}
use tokendog.Policies.{RequestContext, LoadBalancer, IsLawful}
use tokendog.Worker.{Worker, healthy_worker_urls}
use tokendog.Worker.Health.{healthy_worker_urls-IsListed, healthy_from-empty, NoneHealthy}
use tokendog.Server.{AppState, pick, next_worker_with_context}
use tokendog.Server.Completion.{finish_request}
use tokendog.Server.Routing.{
  serving_pool, serving_policy, with_policy, choose_for, pick-IsPicked,
  next_worker_with_context_lem, next_worker_with_context-pick,
}

module _ {S : Type 0} (lb : LoadBalancer S) where
  module _ (laws : IsLawful lb) where
    pick_returns :
        (choose : S → List String → Outcome (ℕ × S)) (healthy : List (ℕ × String))
        (policy chosen : S) (k n : ℕ)
        → healthy ≢ []
        → choose policy (map (λ w. w.1) healthy) ≡ ret (k, chosen)
        → k < length healthy
        → laws.Room chosen n
        → ((i : ℕ) (url : String) → get_elem? healthy k ≡ some (i, url) → i < n)
        → (found : ℕ × String) × (next : S) × (pick lb choose healthy policy
            ≡ ret (some found, next))
    unfolding pick
    pick_returns choose [] policy chosen k n some_up selected lt room bound = absurd (some_up refl)
    pick_returns choose (first ∷ others) policy chosen k n some_up selected lt room bound =
        let (found, at) = get_elem?-some (first ∷ others) k lt in
        let (next, started, _) = laws.start_fits chosen found.0 n room (bound found.0 found.1 at) in
        (found, next, rw (selected, at, started))

    -- If some worker is healthy, the policy has room for the whole pool and its selection does not
    -- panic, then the request is given a worker.
    pub next_worker_with_context_returns :
        (env : Env) (self : AppState S) (ctx : RequestContext) (workers : List Worker)
        (policy chosen : S) (k : ℕ)
        → serving_pool self ≡ some workers
        → serving_policy self ≡ some policy
        → laws.Room policy (length workers)
        → ¬ NoneHealthy workers
        → choose_for lb env ctx policy (map (λ w. w.1) (healthy_worker_urls workers))
          ≡ ret (k, chosen)
        → (i : ℕ) × (url : String) × (t : AppState S) × (next_worker_with_context lb env self ctx
            ≡ ret (some (i, url), t))
    next_worker_with_context_returns env self ctx workers policy chosen k e h room up selected =
        let healthy = healthy_worker_urls workers in
        let urls = map (λ (w : ℕ × String). w.1) healthy in
        let k_lt : k < length urls =
          laws.select_with_context_lt env policy chosen urls ctx k selected in
        let same : length urls ≡ length healthy = length-map (λ (w : ℕ × String). w.1) healthy in
        let room' =
          laws.select_with_context_keeps env policy chosen urls ctx k (length workers) selected
            room in
        let (found, next, run) =
          pick_returns (choose_for lb env ctx) healthy policy chosen k (length workers)
            (λ empty. up ((healthy_from-empty 0 workers).0 empty)) selected (omega arith) room'
            in_pool in
        (
          found.0,
          found.1,
          with_policy self next,
          next_worker_with_context_lem lb env self ctx workers policy e h ∙ rw run,
        )
      where
        in_pool :
            (i : ℕ) (url : String)
            → get_elem? (healthy_worker_urls workers) k ≡ some (i, url)
            → i < length workers
        in_pool i url at =
            let (w, there, _, _) = healthy_worker_urls-IsListed workers k i url at in
            lt-length_of_get_elem? workers i there

    pub finish_request-with_policy :
        (self : AppState S) (next chosen : S) (i : ℕ)
        → lb.on_request_end next i ≡ ret chosen
        → finish_request lb (with_policy self next) i ≡ ret (with_policy self chosen)
    unfolding finish_request
    finish_request-with_policy self next chosen i ended = elim (Bool-cases self.k8s_mode) [
      | inl k8s ↦ rw (k8s, ended)
      | inr static ↦ rw (static, ended)
    ]

    -- Finishing the request that was just given a worker leaves the policy as its selection left it:
    -- what the start counted is taken back.
    pub finish_request-next_worker_with_context :
        (env : Env) (self t : AppState S) (ctx : RequestContext) (workers : List Worker)
        (policy : S) (i : ℕ) (url : String)
        → serving_pool self ≡ some workers
        → serving_policy self ≡ some policy
        → laws.Room policy (length workers)
        → next_worker_with_context lb env self ctx ≡ ret (some (i, url), t)
        → (k : ℕ) × (chosen : S) × (choose_for lb env ctx policy
              (map (λ w. w.1) (healthy_worker_urls workers))
            ≡ ret (k, chosen))
          × (finish_request lb t i ≡ ret (with_policy self chosen))
    finish_request-next_worker_with_context env self t ctx workers policy i url e h room run =
        let (next, picking, same) =
          next_worker_with_context-pick lb env self t ctx workers policy (some (i, url)) e h run in
        let p =
          pick-IsPicked lb (choose_for lb env ctx) (healthy_worker_urls workers) policy next
            (i, url) picking in
        let urls = map (λ (w : ℕ × String). w.1) (healthy_worker_urls workers) in
        let room' =
          laws.select_with_context_keeps env policy p.chosen urls ctx p.index (length workers)
            p.selected room in
        let ended = laws.end_after_start p.chosen next i (length workers) room' p.started in
        (
          p.index,
          p.chosen,
          p.selected,
          rw same (finish_request-with_policy self next p.chosen i ended),
        )
