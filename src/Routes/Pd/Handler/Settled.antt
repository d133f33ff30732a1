-- ===== src/Routes/Pd/Handler/Settled.antt =====
-- What a request that the two stages serve leaves behind.
use tokendog.Base.{
  ℕ, ◌≤◌, arith, ◌≡◌, refl, String, List, Option, none, some, Bool, true, false, ret, Outcome,
  panic, ◌>>=◌, ◌⊎◌, inl, inr, length, ltb, if-cases, if◌then◌else◌,
}
use tokendog.Base.Env.{Env}
use tokendog.Base.Int.{ℤ}
use tokendog.Config.{PdMode, vllm, sglang}
use tokendog.Policies.{RequestContext, LoadBalancer, IsLawful}
use tokendog.Server.{AppState}
use tokendog.Server.Stages.{prefill_stage, decode_stage}
use tokendog.Server.Stages.Rooms.{HasRoom, IsSettled}
use tokendog.Middleware.Context.{HeaderMap, extract_context}
use tokendog.Middleware.Handler.{
  Body, collected, failed, Response, Outgoing, Reply, max_body_size, proxy_handler, ok as replied,
  err as not_replied,
}
use tokendog.Middleware.Error.{SendError}
use tokendog.Middleware.Json.{Json}
use tokendog.Routes.Pd.{Got, got, gone, PdResponse, PdResult, ok, err, Crates, is_inference_path}
use tokendog.Routes.PdError.{PdProxyError, body_collect}
use tokendog.Routes.Pd.Vllm.Answered.{process_vllm_pd_request-IsSettled}
use tokendog.Routes.Pd.Sglang.Answered.{process_sglang_pd_request-IsSettled}
use tokendog.Routes.Pd.Handler.{
  PdRequest, Handled, served, refuse, parsed, located, of_result, of_reply, process_pd_request,
  parsed_pd, collected_pd, delegated, handled_in, pd_proxy_handler,
}

of_result-served :
    (result : PdResult) (r : PdResponse) → of_result result ≡ served r → result ≡ ok r
of_result-served (ok a) r e = cc
of_result-served (err a) r e = cc

of_reply-served : (reply : Reply) (r : PdResponse) → of_reply reply ≡ served r → ⊥
of_reply-served (replied a) r e = cc
of_reply-served (not_replied a) r e = cc

ltb-false : (n m : ℕ) → ltb n m ≡ false → m ≤ n
ltb-false n m e = ground arith

refused_not_served :
    {S : Type 0} (e : PdProxyError) (r : PdResponse) (self t : AppState S)
    → ◌≡◌ {A = Outcome (Handled × AppState S)} (ret (refuse e, self)) (ret (served r, t))
    → ⊥
refused_not_served e r self t h = cc

ended {ℓ} :
    {X : Type ℓ} {A : Type 0} (m : Outcome (X × A)) (f : X → Handled) {r : PdResponse} {t : A}
    → ◌>>=◌ {B = Handled × A} m (λ (x, left). ret (f x, left)) ≡ ret (served r, t)
    → (x : X) × (m ≡ ret (x, t)) × (f x ≡ served r)
ended (ret (x, left)) f {t = t} run = let same : left ≡ t = cc in (x, rw same, cc)
ended panic f run = cc

module _ {S : Type 0} (lb : LoadBalancer S) (laws : IsLawful lb) (c : Crates)
    (send : Outgoing → Response ⊎ SendError) (build : Response → Option Response)
    (first second : Env) (prefill_first : Bool) (drawn : ℤ) (req : PdRequest) (self t : AppState S)
    (r : PdResponse) where
  delegated-served :
      delegated lb c send build first second prefill_first drawn req self ≡ ret (served r, t) → ⊥
  unfolding delegated
  delegated-served run =
      let (reply, handled, same) =
        ended
          (proxy_handler lb (λ bytes. parsed (c.parse bytes)) (λ url. located (c.parse_url url))
            send build first self req.inner)
          of_reply run in
      of_reply-served reply r same

  module _ (room_p : HasRoom laws prefill_stage self)
      (room_d : HasRoom laws decode_stage self) where
    process_pd_request-IsSettled :
        (mode : PdMode) (path : String) (request_json : Json) (ctx : RequestContext)
        (headers : HeaderMap)
        → process_pd_request lb c send build first second prefill_first drawn mode path request_json
            ctx headers self
          ≡ ret (ok r, t)
        → IsSettled lb first second ctx self t
    unfolding process_pd_request
    process_pd_request-IsSettled vllm path request_json ctx headers run =
        process_vllm_pd_request-IsSettled lb laws c first second path request_json ctx headers self
          t r room_p room_d run
    process_pd_request-IsSettled sglang path request_json ctx headers run =
        process_sglang_pd_request-IsSettled lb c first second prefill_first drawn path request_json
          ctx headers r t laws self room_p room_d run

    -- The request was read as JSON, and it is settled.
    abbrev pub ServedBy : List ℕ → Type 0
    ServedBy bytes =
        (request_json : Json) × (c.parse bytes ≡ got request_json)
        × IsSettled lb first second (extract_context (some request_json) req.inner.headers) self t

    parsed_pd-ServedBy :
        (mode : PdMode) (bytes : List ℕ) (read : Got Json)
        → c.parse bytes ≡ read
        → parsed_pd lb c send build first second prefill_first drawn mode req read self
          ≡ ret (served r, t)
        → ServedBy bytes
    unfolding parsed_pd
    parsed_pd-ServedBy mode bytes (gone e) same run = cc
    parsed_pd-ServedBy mode bytes (got request_json) same run =
        let ctx = extract_context (some request_json) req.inner.headers in
        let (result, handled, same_r) =
          ended
            (process_pd_request lb c send build first second prefill_first drawn mode req.path
              request_json ctx req.inner.headers self)
            of_result run in
        let is_ok : result ≡ ok r = of_result-served result r same_r in
        (
          request_json,
          same,
          process_pd_request-IsSettled mode req.path request_json ctx req.inner.headers
              (rw is_ok at handled),
        )

    read_whole :
        (limit : ℕ) (mode : PdMode) (bytes : List ℕ) (e : PdProxyError)
        → (if ltb limit (length bytes)
            then ret (refuse e, self)
            else parsed_pd lb c send build first second prefill_first drawn mode req
                (c.parse bytes)
                self)
          ≡ ret (served r, t)
        → (length bytes ≤ limit) × ServedBy bytes
    read_whole limit mode bytes e run =
        elim (if-cases (ltb limit (length bytes)) (ret (refuse e, self))
          (parsed_pd lb c send build first second prefill_first drawn mode req (c.parse bytes) self)
          run) [
            | inl (over, refusal) ↦ absurd (refused_not_served e r self t refusal)
            | inr (fits, done) ↦ (
              ltb-false limit (length bytes) fits,
              parsed_pd-ServedBy mode bytes (c.parse bytes) refl done,
            )
          ]

    collected_pd-ServedBy :
        (mode : PdMode) (body : Body)
        → collected_pd lb c send build first second prefill_first drawn mode req body self
          ≡ ret (served r, t)
        → (bytes : List ℕ) × (body ≡ collected bytes)
          × (length bytes ≤ max_body_size)
          × ServedBy bytes
    unfolding collected_pd
    collected_pd-ServedBy mode (failed e) run =
        absurd (refused_not_served (body_collect e) r self t run)
    collected_pd-ServedBy mode (collected bytes) run =
        let (small, by) =
          read_whole max_body_size mode bytes (body_collect "request body too large") run in
        (bytes, refl, small, by)

    handled_in-served :
        (pd_mode : Option PdMode)
        → handled_in lb c send build first second prefill_first drawn pd_mode req self
          ≡ ret (served r, t)
        → (mode : PdMode) × (pd_mode ≡ some mode)
          × (is_inference_path req.path ≡ true)
          × (bytes : List ℕ) × (req.inner.body ≡ collected bytes)
          × (length bytes ≤ max_body_size)
          × ServedBy bytes
    unfolding handled_in
    handled_in-served none run = absurd (delegated-served run)
    handled_in-served (some mode) run =
        elim (if-cases (is_inference_path req.path)
          (collected_pd lb c send build first second prefill_first drawn mode req req.inner.body
            self)
          (delegated lb c send build first second prefill_first drawn req self) run) [
            | inl (inference, done) ↦
                let (bytes, read, small, by) = collected_pd-ServedBy mode req.inner.body done in
                (mode, refl, inference, bytes, read, small, by)
            | inr (other, done) ↦ absurd (delegated-served done)
          ]

    -- If the policies of the two stages have room for their pools and pd_proxy_handler serves a
    -- request by the two stages, then the router is in PD mode, the path is an inference path, the
    -- body was read, has at most 16 MB and is JSON, each stage was given a worker, and each policy
    -- is left as its selection left it, with the routing recorded: no request is left counted.
    pub pd_proxy_handler-IsSettled :
        pd_proxy_handler lb c send build first second prefill_first drawn req self
          ≡ ret (served r, t)
        → (mode : PdMode) × (self.pd_mode ≡ some mode)
          × (is_inference_path req.path ≡ true)
          × (bytes : List ℕ) × (req.inner.body ≡ collected bytes)
          × (length bytes ≤ max_body_size)
          × ServedBy bytes
    unfolding pd_proxy_handler
    pd_proxy_handler-IsSettled run = handled_in-served self.pd_mode run
