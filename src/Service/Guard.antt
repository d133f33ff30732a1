-- ===== src/Service/Guard.antt =====
-- Which requests the HTTP service lets through, and what /health answers.
use tokendog.Base.{
  ◌≡◌, ◌≢◌, refl, sym, ap, ◌∙◌, String, List, ◌∷◌, Option, some, Bool, true, ret, ◌⊎◌, inl, inr,
  ◌↔◌, [],
}
use tokendog.Base.Env.{Env}
use tokendog.Base.Int.{ℤ}
use tokendog.Config.Auth
use tokendog.Config.Auth.{
  Access, run_next, unauthorized, AuthConfig, auth_middleware, auth_middleware_iff,
  auth_middleware_no_keys, IsKey, token_of,
}
use tokendog.Middleware.Error.{SendError}
use tokendog.Middleware.Handler.{Response, Outgoing}
use tokendog.Policies.{LoadBalancer}
use tokendog.Routes.Pd.{Crates}
use tokendog.Routes.Pd.Handler.{PdRequest}
use tokendog.Server.{AppState}
use tokendog.Service.{
  denied, Handler, Axum, IsAxum, on_health, on_proxy, run_or_deny, with_auth, build_router,
}

denied_not_run : unauthorized ≡ run_next → ⊥
denied_not_run e = cc

module _ {D : Type 0} (digest : String → D) (ct_eq : D → D → Bool) {S : Type 0} (ax : Axum S)
    (laws : IsAxum ax) (lb : LoadBalancer S) (c : Crates) (send : Outgoing → Response ⊎ SendError)
    (build : Response → Option Response) (first second : Env) (prefill_first : Bool)
    (drawn : ℤ) where
  abbrev routes : ax.Router
  routes =
      ax.fallback (ax.route ax.new "/health" (ax.get on_health))
        (on_proxy digest ct_eq ax lb c send build first second prefill_first drawn)

  run_or_deny_local :
      (a : Access) (req : PdRequest) (self : AppState S) (next next' : Handler S)
      → next req self ≡ next' req self
      → run_or_deny digest ct_eq a next req self ≡ run_or_deny digest ct_eq a next' req self
  run_or_deny_local run_next req self next next' same = same
  run_or_deny_local unauthorized req self next next' same = refl

  -- The two layers around the routes.
  call_lem :
      (config : AuthConfig digest ct_eq) (req : PdRequest) (self : AppState S)
      → ax.call
          (build_router digest ct_eq ax lb c send build first second prefill_first drawn config)
          req
          self
        ≡ with_auth digest ct_eq config (ax.call routes) req self
  unfolding build_router
  call_lem config req self =
      laws.call-layer _ ax.trace_layer req self (λ next next' same.
        laws.trace_layer_same next req self ∙ (same ∙ sym (laws.trace_layer_same next' req self)))
      ∙ (laws.trace_layer_same _ req self
          ∙ laws.call-layer routes (with_auth digest ct_eq config) req self (
              run_or_deny_local (auth_middleware digest ct_eq config req.path req.inner.headers) req
                self))

  routes_other :
      (req : PdRequest) (self : AppState S)
      → req.path ≢ "/health"
      → ax.call routes req self
        ≡ on_proxy digest ct_eq ax lb c send build first second prefill_first drawn req self
  routes_other req self ne =
      laws.call-fallback _ _ req self
        (laws.routed-route_other ax.new "/health" req.path _ ne ∙ laws.routed-new req.path)

  -- No key is configured, or the request has a bearer token with the hash of one of them.
  abbrev pub MayPass : List String → PdRequest → Type 0
  MayPass keys req =
      (keys ≡ [])
      ⊎ ((t : String) × (token_of req.inner.headers ≡ some t) × IsKey digest ct_eq keys t)

  abbrev pub service : List String → Handler S
  service keys = ax.call (
      build_router digest ct_eq ax lb c send build first second prefill_first drawn
        (Auth.new digest ct_eq (some keys)))

  module _ (ct_eq_iff : (a b : D) → (ct_eq a b ≡ true) ↔ (a ≡ b)) where
    access-MayPass :
        (keys : List String) (req : PdRequest)
        → req.path ≢ "/health"
        → (auth_middleware digest ct_eq
              (Auth.new digest ct_eq (some keys))
              req.path
              req.inner.headers
            ≡ run_next)
          ↔ MayPass keys req
    access-MayPass [] req ne =
        (λ e. inl refl, λ h. auth_middleware_no_keys digest ct_eq req.path req.inner.headers)
    access-MayPass (key ∷ keys) req ne =
        let (from, to) =
          auth_middleware_iff digest ct_eq ct_eq_iff key keys req.path req.inner.headers ne in
        (λ e. inr (from e), λ h. elim h [ inl empty ↦ absurd cc | inr token ↦ to token ])

    -- A request to another path than /health reaches pd_proxy_handler if no API key is configured or
    -- it has a bearer token with the hash of one of them, and otherwise it is answered 401 and the
    -- state is left as it is: no worker is selected and nothing is sent.
    pub build_router_guard :
        (keys : List String) (req : PdRequest) (self : AppState S)
        → req.path ≢ "/health"
        → (MayPass keys req
            × (service keys req self
                ≡ on_proxy digest ct_eq ax lb c send build first second prefill_first drawn req
                    self))
          ⊎ (¬ MayPass keys req
              × (service keys req self ≡ ret (denied (401, "Unauthorized"), self)))
    build_router_guard keys req self ne =
        decided
          (auth_middleware digest ct_eq (Auth.new digest ct_eq (some keys)) req.path
            req.inner.headers)
          refl
      where
        decided :
            (a : Access)
            → auth_middleware digest ct_eq
                (Auth.new digest ct_eq (some keys))
                req.path
                req.inner.headers
              ≡ a
            → (MayPass keys req
                × (service keys req self
                    ≡ on_proxy digest ct_eq ax lb c send build first second prefill_first drawn req
                        self))
              ⊎ (¬ MayPass keys req
                  × (service keys req self ≡ ret (denied (401, "Unauthorized"), self)))
        decided run_next at = inl (
          (access-MayPass keys req ne).0 at,
          call_lem (Auth.new digest ct_eq (some keys)) req self
              ∙ (ap (λ a. run_or_deny digest ct_eq a (ax.call routes) req self) at
                  ∙ routes_other req self ne),
        )
        decided unauthorized at = inr (
          λ may. denied_not_run (sym at ∙ (access-MayPass keys req ne).1 may),
          call_lem (Auth.new digest ct_eq (some keys)) req self
              ∙ ap (λ a. run_or_deny digest ct_eq a (ax.call routes) req self) at,
        )
