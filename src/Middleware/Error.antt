-- ===== src/Middleware/Error.antt =====
-- crates/router/src/middleware/error.rs
use tokendog.Base.{ℕ, String}

-- What the program asks of a reqwest::Error.
pub data SendError : Type 0 where
  timeout connect other : SendError

pub data ProxyError : Type 0 where
  url_parse : ProxyError
  worker_request : SendError → ProxyError
  body_collect : String → ProxyError
  response_build : ProxyError
  no_healthy_workers : ProxyError

-- The status and the body of the answer; its content type is plain text.
unfoldable pub into_response : ProxyError → ℕ × String
into_response url_parse = (502, "invalid worker URL")
into_response (worker_request timeout) = (504, "worker timeout")
into_response (worker_request connect) = (502, "worker connection failed")
into_response (worker_request other) = (502, "worker error")
into_response (body_collect e) = (400, "failed to read request body")
into_response response_build = (500, "internal error")
into_response no_healthy_workers = (503, "no healthy workers available")
