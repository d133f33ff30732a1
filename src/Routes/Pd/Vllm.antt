-- ===== src/Routes/Pd/Vllm.antt =====
-- process_vllm_pd_request of crates/router/src/routes/pd_handler.rs: a prefill request, then a decode
-- request with the KV transfer parameters of its answer. A stage has draws and a clock of its own.
pub mod Counted
pub mod Answered
pub mod Ends
pub mod Returns
use tokendog.Base.{
  ℕ, String, List, Option, none, some, Bool, true, false, Outcome, ret, panic, ◌>>=◌, if◌then◌else◌,
}
use tokendog.Base.Env.{Env}
use tokendog.Policies.{RequestContext, LoadBalancer}
use tokendog.Server.{AppState}
use tokendog.Server.Pd.{next_prefill_worker, next_decode_worker}
use tokendog.Server.Completion.{
  finish_prefill_request, finish_decode_request, record_prefill_request, record_decode_request,
}
use tokendog.Middleware.Json.{Json, index_set}
use tokendog.Middleware.Context.{HeaderMap}
use tokendog.Middleware.Header.{filter_hop_by_hop}
use tokendog.Routes.Prefill.{
  prepare_prefill_request, build_prefill_kv_transfer_params, build_decode_kv_transfer_params,
}
use tokendog.Routes.Logprobs.{merge_logprobs_in_json}
use tokendog.Routes.PdError.{
  PdProxyError, no_workers, prefill_request, prefill_error, prefill_response, prefill_parse,
  decode_request, decode_response, decode_parse, json_serialize, url_parse,
}
use tokendog.Routes.Pd.{
  Got, got, gone, Url, Answer, Sent, answer, error, Payload, whole, relayed, PdResult, ok, err,
  Crates, is_success, build_target_url, filter_headers, StreamingInfo, detect_streaming_info,
  build_response, insert_in,
}

module _ (c : Crates) where
  abbrev pub serialized : ℕ → HeaderMap → Got (List ℕ) → PdResult
  serialized status headers (got merged) = build_response c status headers (whole merged)
  serialized status headers (gone e) = err (json_serialize e)

  abbrev merged_into : Json → ℕ → HeaderMap → Got Json → PdResult
  merged_into prefill_json status headers (got decode_json) =
      serialized status headers (c.to_vec (merge_logprobs_in_json prefill_json decode_json).0)
  merged_into prefill_json status headers (gone e) = err (decode_parse e)

  abbrev read_back : StreamingInfo → Json → ℕ → HeaderMap → Got (List ℕ) → PdResult
  read_back si prefill_json status headers (gone e) = err (decode_response e)
  read_back si prefill_json status headers (got bytes) =
      if si.needs_logprobs
      then merged_into prefill_json status headers (c.parse bytes)
      else build_response c status headers (whole bytes)

  -- From the answer of the decode worker to the response.
  unfoldable pub respond : StreamingInfo → Json → Answer → PdResult
  respond si prefill_json decode_resp =
      let headers = filter_hop_by_hop decode_resp.headers in
      if si.is_streaming
      then build_response c decode_resp.status headers (relayed decode_resp.bytes)
      else read_back si prefill_json decode_resp.status headers decode_resp.bytes

abbrev pub with_params : Option Json → Json → Json
with_params none request = request
with_params (some params) request = insert_in "kv_transfer_params" params request

module _ {S : Type 0} (lb : LoadBalancer S) (c : Crates) where
  -- What comes out of a stage: the result and the state.
  abbrev pub Run : Type 0
  Run = Outcome (PdResult × AppState S)

  module _ (second : Env) (path : String) (request_json : Json) (ctx : RequestContext)
      (headers : HeaderMap) where
    unfoldable pub decode_answered : Json → ℕ → String → Sent → AppState S → Run
    decode_answered prefill_json i url (error e) self = ret (err (decode_request url e.text), self)
    decode_answered prefill_json i url (answer decode_resp) self = do
      finished ← finish_decode_request lb self i
      ret (
        respond c (detect_streaming_info request_json) prefill_json decode_resp,
        record_decode_request lb second finished ctx i,
      )

    unfoldable pub decode_to : Json → ℕ → String → Got Url → AppState S → Run
    unfolding decode_answered
    decode_to prefill_json i url (gone e) self = ret (err (url_parse e), self)
    decode_to prefill_json i url (got target) self =
        let request = with_params (build_decode_kv_transfer_params prefill_json) request_json in
        decode_answered prefill_json i url (c.post target.text (filter_headers headers) request)
          self

    unfoldable pub decode_with : Json → Option (ℕ × String) × AppState S → Run
    unfolding decode_to
    decode_with prefill_json (none, self) = ret (err (no_workers "decode"), self)
    decode_with prefill_json (some (i, url), self) =
        decode_to prefill_json i url (build_target_url c url path) self

    module _ (first : Env) where
      -- The prefill worker answered with JSON: its request is finished, and the decode stage follows.
      unfoldable pub prefill_parsed : ℕ → Got Json → AppState S → Run
      unfolding decode_with
      prefill_parsed i (gone e) self = ret (err (prefill_parse e), self)
      prefill_parsed i (got prefill_json) self = do
        finished ← finish_prefill_request lb self i
        given ← next_decode_worker lb second (record_prefill_request lb first finished ctx i) ctx
        decode_with prefill_json given

      unfoldable pub prefill_read : ℕ → Got (List ℕ) → AppState S → Run
      unfolding prefill_parsed
      prefill_read i (gone e) self = ret (err (prefill_response e), self)
      prefill_read i (got bytes) self = prefill_parsed i (c.parse bytes) self

      unfoldable pub prefill_answered : ℕ → String → Sent → AppState S → Run
      unfolding prefill_read
      prefill_answered i url (error e) self = ret (err (prefill_request url e.text), self)
      prefill_answered i url (answer prefill_resp) self =
          let refused = do
            finished ← finish_prefill_request lb self i
            ret (err (prefill_error prefill_resp.status prefill_resp.text), finished)
          in elim (is_success prefill_resp.status) [
            | true ↦ prefill_read i prefill_resp.bytes self
            | false ↦ refused
          ]

      unfoldable pub prefill_to : ℕ → String → Json → Got Url → AppState S → Run
      unfolding prefill_answered
      prefill_to i url request (gone e) self = ret (err (url_parse e), self)
      prefill_to i url request (got target) self =
          prefill_answered i url (c.post target.text (filter_headers headers) request) self

      unfoldable pub prefill_with : Option (ℕ × String) × AppState S → Run
      unfolding prefill_to
      prefill_with (none, self) = ret (err (no_workers "prefill"), self)
      prefill_with (some (i, url), self) = do
        prepared ← prepare_prefill_request request_json path
        request ← index_set "kv_transfer_params" build_prefill_kv_transfer_params prepared
        prefill_to i url request (build_target_url c url path) self

      unfoldable pub process_vllm_pd_request : AppState S → Run
      unfolding prefill_with
      process_vllm_pd_request self = do
        given ← next_prefill_worker lb first self ctx
        prefill_with given
