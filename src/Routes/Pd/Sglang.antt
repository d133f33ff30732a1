-- ===== src/Routes/Pd/Sglang.antt =====
-- process_sglang_pd_request of crates/router/src/routes/pd_handler.rs: the prefill and the decode
-- request are sent at once. Where both fail, `try_join!` reports the one that failed first.
pub mod Answered
pub mod Returns
use tokendog.Base.{
  ℕ, String, List, Option, none, some, Bool, true, false, not, ◌&&◌, Outcome, ret, panic, ◌>>=◌,
  if◌then◌else◌,
}
use tokendog.Base.Env.{Env}
use tokendog.Base.Int.{ℤ}
use tokendog.Policies.{RequestContext, LoadBalancer}
use tokendog.Server.{AppState}
use tokendog.Server.Pd.{next_prefill_worker, next_decode_worker}
use tokendog.Server.Completion.{
  finish_prefill_request, finish_decode_request, record_prefill_request, record_decode_request,
}
use tokendog.Middleware.Json.{Json, string, number, pos_int, from_i64}
use tokendog.Middleware.Context.{HeaderMap}
use tokendog.Middleware.Header.{filter_hop_by_hop}
use tokendog.Routes.Logprobs.{merge_logprobs_in_json}
use tokendog.Routes.PdError.{
  PdProxyError, ReqwestError, no_workers, decode_response, json_serialize, worker_request,
  url_parse,
}
use tokendog.Routes.Pd.{
  Got, got, gone, Url, Answer, Sent, answer, error, whole, relayed, PdResult, ok, err, Crates,
  build_target_url, filter_headers, StreamingInfo, detect_streaming_info, build_response, insert_in,
}
use tokendog.Routes.Pd.Bootstrap.{default_bootstrap_port, build_sglang_bootstrap_params}
use tokendog.Routes.Pd.Vllm.{Run, serialized}

abbrev to_option : Got Json → Option Json
to_option (got v) = some v
to_option (gone e) = none

abbrev merged_with : Option Json → Json → Json
merged_with none decode_json = decode_json
merged_with (some prefill) decode_json = (merge_logprobs_in_json prefill decode_json).0

module _ (c : Crates) where
  abbrev read_json : Got (List ℕ) → Option Json
  read_json (gone e) = none
  read_json (got bytes) = to_option (c.parse bytes)

  abbrev pub prefill_json_of : StreamingInfo → Answer → Option Json
  prefill_json_of si prefill_resp =
      if si.needs_logprobs && not si.is_streaming then read_json prefill_resp.bytes else none

  -- A decode answer that is no JSON goes out as it is.
  abbrev merged_into : Option Json → ℕ → HeaderMap → List ℕ → Got Json → PdResult
  merged_into prefill_json status headers bytes (got decode_json) =
      serialized c status headers (c.to_vec (merged_with prefill_json decode_json))
  merged_into prefill_json status headers bytes (gone e) =
      build_response c status headers (whole bytes)

  abbrev read_back : StreamingInfo → Option Json → ℕ → HeaderMap → Got (List ℕ) → PdResult
  read_back si prefill_json status headers (gone e) = err (decode_response e)
  read_back si prefill_json status headers (got bytes) =
      if si.needs_logprobs
      then merged_into prefill_json status headers bytes (c.parse bytes)
      else build_response c status headers (whole bytes)

  unfoldable pub respond : StreamingInfo → Option Json → Answer → PdResult
  respond si prefill_json decode_resp =
      let headers = filter_hop_by_hop decode_resp.headers in
      if si.is_streaming
      then build_response c decode_resp.status headers (relayed decode_resp.bytes)
      else read_back si prefill_json decode_resp.status headers decode_resp.bytes

-- The three bootstrap parameters, in a request that is an object.
abbrev pub with_bootstrap : String × (ℕ × ℤ) → Json → Json
with_bootstrap (host, (port, room)) request = insert_in "bootstrap_room" (from_i64 room) (
    insert_in "bootstrap_port" (number (pos_int port))
      (insert_in "bootstrap_host" (string host) request))

module _ {S : Type 0} (lb : LoadBalancer S) (c : Crates) (first second : Env) (prefill_first : Bool)
    (drawn : ℤ) (path : String) (request_json : Json) (ctx : RequestContext)
    (headers : HeaderMap) where
  unfoldable pub both_answered : ℕ → ℕ → Answer → Answer → AppState S → Run lb c
  both_answered i j prefill_resp decode_resp self = do
    prefill_done ← finish_prefill_request lb self i
    decode_done ← finish_decode_request lb (record_prefill_request lb first prefill_done ctx i) j
    let si = detect_streaming_info request_json
    ret (
      respond c si (prefill_json_of c si prefill_resp) decode_resp,
      record_decode_request lb second decode_done ctx j,
    )

  unfoldable pub joined : ℕ → ℕ → Sent → Sent → AppState S → Run lb c
  unfolding both_answered
  joined i j (answer prefill_resp) (answer decode_resp) self =
      both_answered i j prefill_resp decode_resp self
  joined i j (error e) (answer decode_resp) self = ret (err (worker_request e), self)
  joined i j (answer prefill_resp) (error e) self = ret (err (worker_request e), self)
  joined i j (error e) (error d) self =
      ret (err (worker_request (if prefill_first then e else d)), self)

  unfoldable pub dispatch : ℕ → ℕ → Json → Got Url → Got Url → AppState S → Run lb c
  unfolding joined
  dispatch i j request (gone e) decode_target self = ret (err (url_parse e), self)
  dispatch i j request (got prefill_target) (gone e) self = ret (err (url_parse e), self)
  dispatch i j request (got prefill_target) (got decode_target) self =
      joined i j (c.post prefill_target.text (filter_headers headers) request)
        (c.post decode_target.text (filter_headers headers) request) self

  unfoldable pub decode_with : ℕ → String → Option (ℕ × String) × AppState S → Run lb c
  unfolding dispatch
  decode_with i prefill_url (none, self) = ret (err (no_workers "decode"), self)
  decode_with i prefill_url (some (j, decode_url), self) =
      let params =
        build_sglang_bootstrap_params c.parse_url drawn prefill_url default_bootstrap_port in
      dispatch i j (with_bootstrap params request_json) (build_target_url c prefill_url path)
        (build_target_url c decode_url path) self

  unfoldable pub prefill_with : Option (ℕ × String) × AppState S → Run lb c
  unfolding decode_with
  prefill_with (none, self) = ret (err (no_workers "prefill"), self)
  prefill_with (some (i, url), self) = do
    given ← next_decode_worker lb second self ctx
    decode_with i url given

  unfoldable pub process_sglang_pd_request : AppState S → Run lb c
  unfolding prefill_with
  process_sglang_pd_request self = do
    given ← next_prefill_worker lb first self ctx
    prefill_with given
