-- ===== src/Tests/Service.antt =====
-- The service of a router in PD mode, over a small router in place of axum's.
use tokendog.Base.{
  ◌≡◌, ◌⊎◌, refl, String, [], ◌∷◌, Option, none, some, true, false, ret, if◌then◌else◌, arith, ◌∙◌,
}
use tokendog.Base.Int.{pos}
use tokendog.Base.Text.{str_eq, eq_iff}
use tokendog.Policies.Balancer.{balancer_trait}
use tokendog.Routes.Pd.Handler.{PdRequest}
use tokendog.Server.{AppState}
use tokendog.Service.{denied, method_not_allowed, Handler, Axum, IsAxum, on_proxy}
use tokendog.Service.Guard.{MayPass, service, build_router_guard}
use tokendog.Tests.Pd.{all_well, before, chat, no_send, as_given}
use tokendog.Tests.Samples.{quiet, tenths}

record Table (S : Type 0) : Type 0 where
  paths : String → Option (Handler S)
  otherwise : Handler S

module _ {S : Type 0} where
  abbrev get : Handler S → Handler S
  get h req self =
      if str_eq req.inner.method "GET" then h req self else ret (method_not_allowed, self)

  abbrev pick_or : Option (Handler S) → Handler S → Handler S
  pick_or none other = other
  pick_or (some h) other = h

  abbrev wrapped : (Handler S → Handler S) → Option (Handler S) → Option (Handler S)
  wrapped m none = none
  wrapped m (some h) = some (m h)

  abbrev small : Axum S
  small = record {
    Router = Table S;
    MethodRouter = Handler S;
    new = record { paths = λ p. none; otherwise = λ req self. ret (denied (404, ""), self) };
    get = get;
    route = λ r p m. record r { paths = λ q. if str_eq q p then some m else r.paths q };
    fallback = λ r h. record r { otherwise = h };
    layer = λ r m. record { paths = λ p. wrapped m (r.paths p); otherwise = m r.otherwise };
    trace_layer = λ h. h;
    call = λ r req self. pick_or (r.paths req.path) r.otherwise req self;
  }

  wrapped_lem :
      (m : Handler S → Handler S) (o : Option (Handler S)) (other : Handler S) (req : PdRequest)
      (self : AppState S)
      → pick_or (wrapped m o) (m other) req self ≡ m (pick_or o other) req self
  wrapped_lem m none other req self = refl
  wrapped_lem m (some h) other req self = refl

  small-IsAxum : IsAxum small
  small-IsAxum = record {
    routed = λ r p. r.paths p;
    routed-new = λ p. refl;
    routed-route = λ r p m. let e = (eq_iff p p).1 refl in rw e refl;
    routed-route_other =
        λ r p q m ne. let e : str_eq q p ≡ false = ground (arith, eq_iff q p) in rw e refl;
    routed-fallback = λ r h p. refl;
    call-get = λ r h req self at method.
        let e = (eq_iff req.inner.method "GET").1 method in rw (at, e) refl;
    call-get_other = λ r h req self at not_get not_head.
        let e : str_eq req.inner.method "GET" ≡ false =
          ground (arith, eq_iff req.inner.method "GET") in
        rw (at, e) refl;
    call-fallback = λ r h req self at. rw at refl;
    call-layer = λ r m req self unseen.
        wrapped_lem m (r.paths req.path) r.otherwise req self
        ∙ unseen (pick_or (r.paths req.path) r.otherwise)
            (λ other left. pick_or (r.paths other.path) r.otherwise other left) refl;
    trace_layer_same = λ h req self. refl;
  }

abbrev pub same_text : String → String
same_text s = s

-- The request has no token.
build_router_guard_example :
    (MayPass same_text str_eq small small-IsAxum
        (balancer_trait tenths)
        all_well
        no_send
        as_given
        quiet
        quiet
        true
        (pos 7)
        ("secret" ∷ [])
        chat
      × (service same_text str_eq small small-IsAxum
            (balancer_trait tenths)
            all_well
            no_send
            as_given
            quiet
            quiet
            true
            (pos 7)
            ("secret" ∷ [])
            chat
            before
          ≡ on_proxy same_text str_eq small
              (balancer_trait tenths)
              all_well
              no_send
              as_given
              quiet
              quiet
              true
              (pos 7)
              chat
              before))
    ⊎ (¬ MayPass same_text str_eq small small-IsAxum
          (balancer_trait tenths)
          all_well
          no_send
          as_given
          quiet
          quiet
          true
          (pos 7)
          ("secret" ∷ [])
          chat
        × (service same_text str_eq small small-IsAxum
              (balancer_trait tenths)
              all_well
              no_send
              as_given
              quiet
              quiet
              true
              (pos 7)
              ("secret" ∷ [])
              chat
              before
            ≡ ret (denied (401, "Unauthorized"), before)))
build_router_guard_example =
    build_router_guard same_text str_eq small small-IsAxum (balancer_trait tenths) all_well no_send
      as_given quiet quiet true (pos 7) eq_iff ("secret" ∷ []) chat before
      (λ e. let b : false ≡ true = (eq_iff "/v1/completions" "/health").1 e in ground arith)

abbrev probe : PdRequest
probe = record chat { path = "/health"; inner = record chat.inner { method = "GET" } }
