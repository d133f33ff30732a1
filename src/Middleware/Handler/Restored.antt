-- ===== src/Middleware/Handler/Restored.antt =====
-- What a proxied request leaves behind, for every lawful policy and in either mode.
use Prim.Native.String
use tokendog.Base.{
  ℕ, ◌≤◌, ◌≡◌, refl, ap, ◌∙◌, ◌⊎◌, inl, inr, String, List, Option, none, some, false, arith, ret,
  length, ltb, map, Bool-cases,
}
use tokendog.Base.Env.{Env}
use tokendog.Base.Text.{trim_end_matches}
use tokendog.Policies.{RequestContext, LoadBalancer, IsLawful}
use tokendog.Worker.{Worker, healthy_worker_urls}
use tokendog.Server.{AppState, next_worker_with_context}
use tokendog.Server.Completion.{finish_request, record_request}
use tokendog.Server.Routing.{
  serving_pool, serving_policy, with_policy, choose_for, pick-IsPicked,
  next_worker_with_context-pick,
}
use tokendog.Server.Routing.Lifecycle.{finish_request-with_policy}
use tokendog.Middleware.Json.{Json}
use tokendog.Middleware.Context.{extract_context}
use tokendog.Middleware.Error.{SendError}
use tokendog.Middleware.Handler.{
  Request, Response, Outgoing, Reply, collected, max_body_size, path_of, answered, forward,
  with_worker, with_body, proxy_handler,
}

module _ {S : Type 0} (lb : LoadBalancer S) (laws : IsLawful lb) (parse : List ℕ → Option Json)
    (parse_url : String → Option String) (send : Outgoing → Response ⊎ SendError)
    (build : Response → Option Response) where
  record_request-with_policy :
      (env : Env) (self : AppState S) (next : S) (ctx : RequestContext) (i : ℕ)
      → record_request lb env (with_policy self next) ctx i
        ≡ with_policy self (lb.record_routing env next ctx i)
  unfolding record_request
  record_request-with_policy env self next ctx i = elim (Bool-cases self.k8s_mode) [
    | inl k8s ↦ rw k8s
    | inr static ↦ rw static
  ]

  -- The policy as a request leaves it: as it was selected, or with the routing recorded.
  abbrev pub IsLeft : Env → RequestContext → ℕ → S → S → Type 0
  IsLeft env ctx i chosen left = (left ≡ chosen) ⊎ (left ≡ lb.record_routing env chosen ctx i)

  module _ (env : Env) (self : AppState S) (ctx : RequestContext) (i n : ℕ) (chosen next : S)
      (room : laws.Room chosen n) (started : lb.on_request_start chosen i ≡ ret next) where
    Finishes : AppState S → Type 0
    Finishes done =
        (left : S) × IsLeft env ctx i chosen left
        × (finish_request lb done i ≡ ret (with_policy self left))

    unrecorded : Finishes (with_policy self next)
    unfolding Finishes
    unrecorded = (
      chosen,
      inl refl,
      finish_request-with_policy lb laws self next chosen i
          (laws.end_after_start chosen next i n room started),
    )

    recorded : Finishes (record_request lb env (with_policy self next) ctx i)
    unfolding Finishes
    recorded = (
      lb.record_routing env chosen ctx i,
      inr refl,
      rw (record_request-with_policy env self next ctx i) (
          finish_request-with_policy lb laws self (lb.record_routing env next ctx i)
            (lb.record_routing env chosen ctx i) i
            (laws.end_after_record env chosen next ctx i n room started)),
    )

    answered-Finishes :
        (answer : Response ⊎ SendError)
        → Finishes
            (answered lb parse parse_url send build env ctx i answer (with_policy self next)).1
    unfolding answered
    answered-Finishes (inl answer) = recorded
    answered-Finishes (inr e) = unrecorded

    forward-Finishes :
        (target : Option String) (req : Request) (bytes : List ℕ)
        → Finishes
            (forward lb parse parse_url send build env ctx i target req bytes
              (with_policy self next)).1
    unfolding forward
    forward-Finishes none req bytes = unrecorded
    forward-Finishes (some target) req bytes = answered-Finishes (send _)

  -- If a pool and a policy with room for it serve and the request, whose body is not too large, is
  -- given a worker, then the handler returns a reply, whatever the URL parser, the worker and the
  -- response builder do, and the policy is left as its selection left it, up to the record of the
  -- routing.
  pub proxy_handler_returns :
      (env : Env) (self t : AppState S) (req : Request) (bytes : List ℕ) (workers : List Worker)
      (policy : S) (i : ℕ) (url : String)
      → req.body ≡ collected bytes
      → length bytes ≤ max_body_size
      → serving_pool self ≡ some workers
      → serving_policy self ≡ some policy
      → laws.Room policy (length workers)
      → next_worker_with_context lb env self (extract_context (parse bytes) req.headers)
        ≡ ret (some (i, url), t)
      → (k : ℕ) × (chosen left : S) × (reply : Reply) × (choose_for lb env
            (extract_context (parse bytes) req.headers)
            policy
            (map (λ w. w.1) (healthy_worker_urls workers))
          ≡ ret (k, chosen))
        × IsLeft env (extract_context (parse bytes) req.headers) i chosen left
        × (proxy_handler lb parse parse_url send build env self req
            ≡ ret (reply, with_policy self left))
  unfolding proxy_handler with_body with_worker Finishes
  proxy_handler_returns env self t req bytes workers policy i url body small e h room run =
      let ctx = extract_context (parse bytes) req.headers in
      let (next, picking, same) =
        next_worker_with_context-pick lb env self t ctx workers policy (some (i, url)) e h run in
      let p =
        pick-IsPicked lb (choose_for lb env ctx) (healthy_worker_urls workers) policy next (i, url)
          picking in
      let urls = map (λ (w : ℕ × String). w.1) (healthy_worker_urls workers) in
      let room' =
        laws.select_with_context_keeps env policy p.chosen urls ctx p.index (length workers)
          p.selected room in
      let target =
        parse_url (String.◌++◌ (trim_end_matches b'/' url) (path_of req.path_and_query)) in
      let (left, is_left, finished) =
        forward-Finishes env self ctx i (length workers) p.chosen next room' p.started target req
          bytes in
      let fits : ltb max_body_size (length bytes) ≡ false = ground arith in
      (
        p.index,
        p.chosen,
        left,
        (forward lb parse parse_url send build env ctx i target req bytes
            (with_policy self next)).0,
        p.selected,
        is_left,
        ap (λ b. with_body lb parse parse_url send build env req b self) body
            ∙ handled ctx next left fits (run ∙ ap (λ x. ret (some (i, url), x)) same) finished
                refl,
      )
    where
      handled :
          (ctx : RequestContext) (next left : S)
          → ltb max_body_size (length bytes) ≡ false
          → next_worker_with_context lb env self ctx ≡ ret (some (i, url), with_policy self next)
          → finish_request lb
              (forward lb parse parse_url send build env ctx i
                (parse_url (String.◌++◌ (trim_end_matches b'/' url) (path_of req.path_and_query)))
                req
                bytes
                (with_policy self next)).1
              i
            ≡ ret (with_policy self left)
          → ctx ≡ extract_context (parse bytes) req.headers
          → with_body lb parse parse_url send build env req (collected bytes) self
            ≡ ret (
              (forward lb parse parse_url send build env ctx i
                  (parse_url (String.◌++◌ (trim_end_matches b'/' url) (path_of req.path_and_query)))
                  req
                  bytes
                  (with_policy self next)).0,
              with_policy self left,
            )
      handled ctx next left fits given finished e = rw (fits, ← e) (rw given (rw finished))
