-- ===== src/Routes/PdError.antt =====
-- PdProxyError of crates/router/src/routes/pd_handler.rs. A text that an error of another crate prints
-- is a field of the error.
use Prim.Native.String
use tokendog.Base.{ℕ, String, Bool, if◌then◌else◌}

-- What the program asks of a reqwest::Error.
pub record ReqwestError : Type 0 where
  pub is_timeout : Bool
  pub text : String

pub data PdProxyError : Type 0 where
  body_collect json_parse no_workers : String → PdProxyError
  prefill_request : String → String → PdProxyError
  prefill_error : ℕ → String → PdProxyError
  prefill_response prefill_parse : String → PdProxyError
  decode_request : String → String → PdProxyError
  decode_response decode_parse json_serialize : String → PdProxyError
  worker_request : ReqwestError → PdProxyError
  url_parse response_build : String → PdProxyError

abbrev joined : String → String → String → String → String
joined a b c d = String.◌++◌ a (String.◌++◌ b (String.◌++◌ c d))

-- The status and the body of the answer. A status is a status already, so the answer can be built.
unfoldable pub into_response : PdProxyError → ℕ × String
into_response (body_collect m) = (400, m)
into_response (json_parse m) = (400, m)
into_response (no_workers m) = (503, m)
into_response (prefill_request url msg) = (502, joined "Prefill request to " url " failed: " msg)
into_response (prefill_error s msg) = (s, msg)
into_response (prefill_response m) = (502, String.◌++◌ "Failed to read prefill response: " m)
into_response (prefill_parse m) = (502, String.◌++◌ "Failed to parse prefill response JSON: " m)
into_response (decode_request url msg) = (502, joined "Decode request to " url " failed: " msg)
into_response (decode_response m) = (502, String.◌++◌ "Failed to read decode response: " m)
into_response (decode_parse m) = (502, String.◌++◌ "Failed to parse decode response JSON: " m)
into_response (json_serialize m) = (500, m)
into_response (worker_request e) = if e.is_timeout then (504, e.text) else (502, e.text)
into_response (url_parse e) = (400, e)
into_response (response_build e) = (500, e)
