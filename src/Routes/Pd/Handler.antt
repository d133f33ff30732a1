-- ===== src/Routes/Pd/Handler.antt =====
-- pd_proxy_handler of crates/router/src/routes/pd_handler.rs: the two stages for an inference request
-- in PD mode, and proxy_handler for the others.
pub mod Settled
use tokendog.Base.{
  ℕ, String, List, Option, none, some, Bool, true, false, Outcome, ret, ◌>>=◌, ◌⊎◌, length, ltb,
  if◌then◌else◌,
}
use tokendog.Base.Env.{Env}
use tokendog.Base.Int.{ℤ}
use tokendog.Config.{PdMode, vllm, sglang}
use tokendog.Policies.{RequestContext, LoadBalancer}
use tokendog.Server.{AppState}
use tokendog.Middleware.Context.{HeaderMap, extract_context}
use tokendog.Middleware.Error
use tokendog.Middleware.Error.{ProxyError, SendError}
use tokendog.Middleware.Handler.{
  Body, collected, failed, Request, Response, Outgoing, Reply, max_body_size, proxy_handler,
  ok as replied, err as not_replied,
}
use tokendog.Middleware.Json.{Json}
use tokendog.Routes.PdError.{PdProxyError, body_collect, json_parse, into_response}
use tokendog.Routes.Pd.{
  Got, got, gone, Url, PdResponse, PdResult, ok, err, Crates, is_inference_path,
}
use tokendog.Routes.Pd.Vllm.{Run, process_vllm_pd_request}
use tokendog.Routes.Pd.Sglang.{process_sglang_pd_request}

-- A request with `uri.path()`.
pub record PdRequest : Type 0 where
  pub path : String
  pub inner : Request

-- The response of the two stages, the response of proxy_handler, or that of an error.
pub data Handled : Type 0 where
  served : PdResponse → Handled
  proxied : Response → Handled
  refused : ℕ × String → Handled

abbrev pub parsed : Got Json → Option Json
parsed (got v) = some v
parsed (gone e) = none

abbrev pub located : Got Url → Option String
located (got url) = some url.text
located (gone e) = none

abbrev pub refuse : PdProxyError → Handled
refuse e = refused (into_response e)

abbrev pub of_result : PdResult → Handled
of_result (ok response) = served response
of_result (err e) = refuse e

abbrev pub of_reply : Reply → Handled
of_reply (replied response) = proxied response
of_reply (not_replied e) = refused (Error.into_response e)

module _ {S : Type 0} (lb : LoadBalancer S) (c : Crates) (send : Outgoing → Response ⊎ SendError)
    (build : Response → Option Response) (first second : Env) (prefill_first : Bool)
    (drawn : ℤ) where
  unfoldable pub process_pd_request :
      PdMode → String → Json → RequestContext → HeaderMap → AppState S → Run lb c
  process_pd_request vllm path request_json ctx headers self =
      process_vllm_pd_request lb c second path request_json ctx headers first self
  process_pd_request sglang path request_json ctx headers self =
      process_sglang_pd_request lb c first second prefill_first drawn path request_json ctx headers
        self

  unfoldable pub parsed_pd :
      PdMode → PdRequest → Got Json → AppState S → Outcome (Handled × AppState S)
  unfolding process_pd_request
  parsed_pd mode req (gone e) self = ret (refuse (json_parse e), self)
  parsed_pd mode req (got request_json) self = do
    let ctx = extract_context (some request_json) req.inner.headers
    (result, left) ← process_pd_request mode req.path request_json ctx req.inner.headers self
    ret (of_result result, left)

  unfoldable pub collected_pd :
      PdMode → PdRequest → Body → AppState S → Outcome (Handled × AppState S)
  unfolding parsed_pd
  collected_pd mode req (failed e) self = ret (refuse (body_collect e), self)
  collected_pd mode req (collected bytes) self =
      let done = parsed_pd mode req (c.parse bytes) self in
      if ltb max_body_size (length bytes)
      then ret (refuse (body_collect "request body too large"), self)
      else done

  unfoldable pub delegated : PdRequest → AppState S → Outcome (Handled × AppState S)
  delegated req self = do
    (reply, left) ←
        proxy_handler lb (λ bytes. parsed (c.parse bytes)) (λ url. located (c.parse_url url)) send
          build first self req.inner
    ret (of_reply reply, left)

  unfoldable pub handled_in :
      Option PdMode → PdRequest → AppState S → Outcome (Handled × AppState S)
  unfolding collected_pd delegated
  handled_in none req self = delegated req self
  handled_in (some mode) req self =
      if is_inference_path req.path
      then collected_pd mode req req.inner.body self
      else delegated req self

  unfoldable pub pd_proxy_handler : PdRequest → AppState S → Outcome (Handled × AppState S)
  unfolding handled_in
  pd_proxy_handler req self = handled_in self.pd_mode req self
