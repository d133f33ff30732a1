-- ===== src/Service.antt =====
-- build_router of crates/router/src/server.rs: the HTTP service with its routes and its middleware.
-- axum and tower-http are no code of the repository: `Axum` has the calls that build_router makes.
pub mod Guard
use tokendog.Base.{ℕ, String, Option, none, some, ◌≡◌, ◌≢◌, Outcome, ret, ◌>>=◌, Bool, ◌⊎◌}
use tokendog.Base.Env.{Env}
use tokendog.Base.Int.{ℤ}
use tokendog.Config.Auth.{Access, run_next, unauthorized, AuthConfig, auth_middleware}
use tokendog.Middleware.Error.{SendError}
use tokendog.Middleware.Handler.{Response, Outgoing}
use tokendog.Policies.{LoadBalancer}
use tokendog.Routes.Pd.{Crates}
use tokendog.Routes.Pd.Handler.{PdRequest, Handled, pd_proxy_handler}
use tokendog.Server.{AppState}
use tokendog.Worker.{HealthResponse, health_handler}

-- The answer of /health, of the proxy handlers, of the authentication, or of axum itself.
pub data Answer : Type 0 where
  health : ℕ × HealthResponse → Answer
  handled : Handled → Answer
  denied : ℕ × String → Answer
  method_not_allowed : Answer

-- What runs a request on the shared state.
abbrev pub Handler : Type 0 → Type 0
Handler S = PdRequest → AppState S → Outcome (Answer × AppState S)

pub record Axum (S : Type 0) : Type 1 where
  pub Router : Type 0
  pub MethodRouter : Type 0
  pub new : Router
  pub get : Handler S → MethodRouter
  pub route : Router → String → MethodRouter → Router
  pub fallback : Router → Handler S → Router
  pub layer : Router → (Handler S → Handler S) → Router
  pub trace_layer : Handler S → Handler S
  pub call : Router → Handler S

-- What axum documents of these calls: a layer wraps every route and the fallback, so a middleware that
-- gives the next handler no other request is one around the whole router; a path with no capture
-- matches itself; `get` answers GET, and a method that a route has no handler for is answered
-- 405 (HEAD, which `get` answers too, is left open); a path with no route goes to the fallback; and
-- the trace layer of tower-http only logs.
pub record IsAxum {S : Type 0} (ax : Axum S) : Type 0 where
  pub routed : ax.Router → String → Option ax.MethodRouter
  pub routed-new : (p : String) → routed ax.new p ≡ none
  pub routed-route :
      (r : ax.Router) (p : String) (m : ax.MethodRouter) → routed (ax.route r p m) p ≡ some m
  pub routed-route_other :
      (r : ax.Router) (p q : String) (m : ax.MethodRouter)
      → q ≢ p
      → routed (ax.route r p m) q ≡ routed r q
  pub routed-fallback :
      (r : ax.Router) (h : Handler S) (p : String) → routed (ax.fallback r h) p ≡ routed r p
  pub call-get :
      (r : ax.Router) (h : Handler S) (req : PdRequest) (self : AppState S)
      → routed r req.path ≡ some (ax.get h)
      → req.inner.method ≡ "GET"
      → ax.call r req self ≡ h req self
  pub call-get_other :
      (r : ax.Router) (h : Handler S) (req : PdRequest) (self : AppState S)
      → routed r req.path ≡ some (ax.get h)
      → req.inner.method ≢ "GET"
      → req.inner.method ≢ "HEAD"
      → ax.call r req self ≡ ret (method_not_allowed, self)
  pub call-fallback :
      (r : ax.Router) (h : Handler S) (req : PdRequest) (self : AppState S)
      → routed r req.path ≡ none
      → ax.call (ax.fallback r h) req self ≡ h req self
  pub call-layer :
      (r : ax.Router) (m : Handler S → Handler S) (req : PdRequest) (self : AppState S)
      → ((next next' : Handler S)
          → next req self ≡ next' req self
          → m next req self ≡ m next' req self)
      → ax.call (ax.layer r m) req self ≡ m (ax.call r) req self
  pub trace_layer_same :
      (h : Handler S) (req : PdRequest) (self : AppState S) → ax.trace_layer h req self ≡ h req self

-- health_handler, with the state that it is given.
abbrev pub on_health : {S : Type 0} → Handler S
on_health req self = ret (health (health_handler self.workers), self)

module _ {D : Type 0} (digest : String → D) (ct_eq : D → D → Bool) {S : Type 0} where
  -- The middleware of auth.rs: the next handler, or the answer 401.
  abbrev pub run_or_deny : Access → Handler S → Handler S
  run_or_deny run_next next req self = next req self
  run_or_deny unauthorized next req self = ret (denied (401, "Unauthorized"), self)

  abbrev pub with_auth : AuthConfig digest ct_eq → Handler S → Handler S
  with_auth config next req self =
      run_or_deny (auth_middleware digest ct_eq config req.path req.inner.headers) next req self

  module _ (ax : Axum S) (lb : LoadBalancer S) (c : Crates) (send : Outgoing → Response ⊎ SendError)
      (build : Response → Option Response) (first second : Env) (prefill_first : Bool)
      (drawn : ℤ) where
    abbrev pub on_proxy : Handler S
    on_proxy req self = do
      (answer, left) ← pd_proxy_handler lb c send build first second prefill_first drawn req self
      ret (handled answer, left)

    unfoldable pub build_router : AuthConfig digest ct_eq → ax.Router
    build_router auth_config =
        ax.layer
          (ax.layer (ax.fallback (ax.route ax.new "/health" (ax.get on_health)) on_proxy)
            (with_auth auth_config))
          ax.trace_layer
