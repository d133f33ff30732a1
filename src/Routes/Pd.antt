-- ===== src/Routes/Pd.antt =====
-- The helpers of crates/router/src/routes/pd_handler.rs, and what its stages take from other crates:
-- the JSON reader and writer, the URL parser, the HTTP client and the response builder.
pub mod Bootstrap
pub mod Vllm
pub mod Sglang
pub mod Handler
use Prim.Native.String
use tokendog.Base.{
  ℕ, ◌<◌, String, List, [], ◌∷◌, Option, none, some, Bool, true, false, not, ◌&&◌, ◌||◌, retain,
  ltb, leb, if◌then◌else◌,
}
use tokendog.Base.Text.{str_eq, trim_end_matches}
use tokendog.Middleware.Json.{Json, Fields, object, get, as_bool, set_field}
use tokendog.Middleware.Context.{HeaderMap}
use tokendog.Middleware.Handler.{without_host}
use tokendog.Routes.Prefill.{contains}
use tokendog.Routes.PdError.{PdProxyError, ReqwestError, response_build, url_parse}

-- A Result of another crate; of the error the program keeps the text.
pub data Got (A : Type 0) : Type 0 where
  got : A → Got A
  gone : String → Got A

-- What the program asks of a url::Url.
pub record Url : Type 0 where
  pub text : String
  pub host_str : Option String
  pub port : Option ℕ

-- What the program asks of a reqwest::Response. `text` is `text().await.unwrap_or_default()`.
pub record Answer : Type 0 where
  pub status : ℕ
  pub headers : HeaderMap
  pub text : String
  pub bytes : Got (List ℕ)

pub data Sent : Type 0 where
  answer : Answer → Sent
  error : ReqwestError → Sent

-- The body of a response: bytes, or the stream of a worker's answer.
pub data Payload : Type 0 where
  whole : List ℕ → Payload
  relayed : Got (List ℕ) → Payload

pub record PdResponse : Type 0 where
  pub status : ℕ
  pub headers : HeaderMap
  pub payload : Payload

pub data PdResult : Type 0 where
  ok : PdResponse → PdResult
  err : PdProxyError → PdResult

-- The functions of other crates.
pub record Crates : Type 0 where
  pub parse : List ℕ → Got Json
  pub to_vec : Json → Got (List ℕ)
  pub parse_url : String → Got Url
  pub post : String → HeaderMap → Json → Sent
  pub build : PdResponse → Got PdResponse

abbrev pub is_inference_path : String → Bool
is_inference_path path =
    contains "/v1/chat/completions" path
    || contains "/v1/completions" path
    || contains "/v1/responses" path
    || contains "/inference/v1/generate" path

-- `StatusCode::is_success`.
abbrev pub is_success : ℕ → Bool
is_success status = leb 200 status && ltb status 300

abbrev pub build_target_url : Crates → String → String → Got Url
build_target_url c worker_url path =
    c.parse_url (String.◌++◌ (trim_end_matches b'/' worker_url) path)

abbrev pub filter_headers : HeaderMap → HeaderMap
filter_headers headers = without_host headers

pub record StreamingInfo : Type 0 where
  pub is_streaming : Bool
  pub needs_logprobs : Bool

abbrev flag : Option Json → Bool
flag none = false
flag (some v) = elim (as_bool v) [ none ↦ false | some b ↦ b ]

abbrev is_some {ℓ} : {A : Type ℓ} → Option A → Bool
is_some none = false
is_some (some a) = true

unfoldable pub detect_streaming_info : Json → StreamingInfo
detect_streaming_info request_json = record {
  is_streaming = flag (get "stream" request_json);
  needs_logprobs = is_some (get "logprobs" request_json) || flag (get "echo" request_json);
}

abbrev built : Got PdResponse → PdResult
built (got response) = ok response
built (gone e) = err (response_build e)

-- The headers go out without content-length.
unfoldable pub build_response : Crates → ℕ → HeaderMap → Payload → PdResult
build_response c status headers payload = built (
    c.build (record {
      status = status;
      headers = retain (λ (name, value). not (str_eq name "content-length")) headers;
      payload = payload;
    }))

-- `if let Some(obj) = v.as_object_mut() { obj.insert(key, w) }`.
abbrev pub insert_in : String → Json → Json → Json
insert_in key w (object fields) = object (set_field key w fields)
insert_in key w v = v
