-- ===== src/Middleware/Handler.antt =====
-- crates/router/src/middleware/handler.rs: the life of a proxied request. The JSON parser, the URL
-- parser and the HTTP client are parameters. The guard ActiveRequest finishes the request on every
-- way out of the handler after it is made; the response body is streamed later.
pub mod Restored
use Prim.Native.String
use tokendog.Base.{
  ℕ, String, List, Option, none, some, not, retain, Outcome, ret, ◌>>=◌, length, ltb, ◌⊎◌, inl, inr,
  if◌then◌else◌,
}
use tokendog.Base.Env.{Env}
use tokendog.Base.Text.{str_eq, trim_end_matches}
use tokendog.Policies.{RequestContext, LoadBalancer}
use tokendog.Server.{AppState, next_worker_with_context}
use tokendog.Server.Completion.{finish_request, record_request}
use tokendog.Middleware.Json.{Json}
use tokendog.Middleware.Context.{HeaderMap, extract_context}
use tokendog.Middleware.Header.{filter_hop_by_hop}
use tokendog.Middleware.Error.{
  SendError, ProxyError, url_parse, worker_request, body_collect, response_build,
  no_healthy_workers,
}

abbrev pub max_body_size : ℕ
max_body_size = 16777216

-- What collecting the body of a request gives: its bytes, or the text of an error.
pub data Body : Type 0 where
  collected : List ℕ → Body
  failed : String → Body

pub record Request : Type 0 where
  pub method : String
  pub path_and_query : Option String
  pub headers : HeaderMap
  pub body : Body

pub record Response : Type 0 where
  pub status : ℕ
  pub headers : HeaderMap
  pub body : List ℕ

pub record Outgoing : Type 0 where
  pub method : String
  pub target : String
  pub headers : HeaderMap
  pub body : List ℕ

pub data Reply : Type 0 where
  ok : Response → Reply
  err : ProxyError → Reply

-- `parts.headers.remove(HOST)`.
abbrev pub without_host : HeaderMap → HeaderMap
without_host headers = retain (λ (name, value). not (str_eq name "host")) headers

abbrev pub path_of : Option String → String
path_of none = "/"
path_of (some path) = path

module _ {S : Type 0} (lb : LoadBalancer S) (parse : List ℕ → Option Json)
    (parse_url : String → Option String) (send : Outgoing → Response ⊎ SendError)
    (build : Response → Option Response) where
  -- The answer of the worker without its hop-by-hop headers.
  abbrev pub filtered : Response → Response
  filtered answer = record answer { headers = filter_hop_by_hop answer.headers }

  abbrev built : Option Response → Reply
  built none = err response_build
  built (some response) = ok response

  -- From the answer of the worker to the reply; a routing that was answered is recorded.
  unfoldable pub answered :
      Env → RequestContext → ℕ → Response ⊎ SendError → AppState S → Reply × AppState S
  answered env ctx i (inr e) self = (err (worker_request e), self)
  answered env ctx i (inl answer) self =
      (built (build (filtered answer)), record_request lb env self ctx i)

  -- From the target to the reply.
  unfoldable pub forward :
      Env → RequestContext → ℕ → Option String → Request → List ℕ → AppState S → Reply × AppState S
  unfolding answered
  forward env ctx i none req bytes self = (err url_parse, self)
  forward env ctx i (some target) req bytes self =
      answered env ctx i
        (send (record {
          method = req.method;
          target = target;
          headers = without_host req.headers;
          body = bytes;
        }))
        self

  -- With the worker that `next_worker_with_context` gave: the guard is made, the request forwarded,
  -- and the guard dropped.
  unfoldable pub with_worker :
      Env
      → RequestContext
      → Request
      → List ℕ
      → Option (ℕ × String) × AppState S
      → Outcome (Reply × AppState S)
  unfolding forward
  with_worker env ctx req bytes (none, self) = ret (err no_healthy_workers, self)
  with_worker env ctx req bytes (some (i, url), self) = do
    let target = parse_url (String.◌++◌ (trim_end_matches b'/' url) (path_of req.path_and_query))
    let (reply, done) = forward env ctx i target req bytes self
    finished ← finish_request lb done i
    ret (reply, finished)

  unfoldable pub with_body : Env → Request → Body → AppState S → Outcome (Reply × AppState S)
  unfolding with_worker
  with_body env req (failed e) self = ret (err (body_collect e), self)
  with_body env req (collected bytes) self =
      let ctx = extract_context (parse bytes) req.headers in
      let routed = do
        given ← next_worker_with_context lb env self ctx
        with_worker env ctx req bytes given
      in if ltb max_body_size (length bytes)
        then ret (err (body_collect "request body too large"), self)
        else routed

  unfoldable pub proxy_handler : Env → AppState S → Request → Outcome (Reply × AppState S)
  unfolding with_body
  proxy_handler env self req = with_body env req req.body self
