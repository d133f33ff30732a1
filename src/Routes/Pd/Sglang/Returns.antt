-- ===== src/Routes/Pd/Sglang/Returns.antt =====
-- An SGLang request for which both stages have a worker always gets a result.
use tokendog.Base.{
  ℕ, ◌≡◌, refl, ◌⊎◌, inl, inr, String, some, Bool, true, false, if◌then◌else◌, ret, after_ret,
}
use tokendog.Base.Env.{Env}
use tokendog.Base.Int.{ℤ}
use tokendog.Policies.{RequestContext, LoadBalancer, IsLawful}
use tokendog.Server.{AppState}
use tokendog.Server.Pd.{next_prefill_worker, next_decode_worker}
use tokendog.Server.Completion.{
  finish_prefill_request, finish_decode_request, record_prefill_request,
}
use tokendog.Server.Stages.{prefill_stage, decode_stage, IsGiven, prefill_IsStage, decode_IsStage}
use tokendog.Server.Stages.Requests.{next-IsGiven}
use tokendog.Server.Stages.Both.{both_finished}
use tokendog.Server.Stages.Rooms.{HasRoom, IsSettled}
use tokendog.Middleware.Json.{Json}
use tokendog.Middleware.Context.{HeaderMap}
use tokendog.Routes.PdError.{ReqwestError, url_parse, worker_request}
use tokendog.Routes.Pd.{
  Got, got, gone, Url, Answer, Sent, answer, error, err, PdResult, Crates, build_target_url,
  filter_headers, detect_streaming_info,
}
use tokendog.Routes.Pd.Bootstrap.{default_bootstrap_port, build_sglang_bootstrap_params}
use tokendog.Routes.Pd.Vllm.{Run}
use tokendog.Routes.Pd.Sglang.{
  respond, prefill_json_of, both_answered, joined, dispatch, decode_with, prefill_with,
  process_sglang_pd_request, with_bootstrap,
}

module _ {S : Type 0} (lb : LoadBalancer S) (laws : IsLawful lb) (c : Crates) (first second : Env)
    (prefill_first : Bool) (drawn : ℤ) (path : String) (request_json : Json) (ctx : RequestContext)
    (headers : HeaderMap) (self : AppState S) (room_p : HasRoom laws prefill_stage self)
    (room_d : HasRoom laws decode_stage self) (s1 s2 : AppState S) (p d : ℕ × String) where
  -- The request that goes to both workers, and what a worker is sent to.
  abbrev pub request_sent : Json
  request_sent =
      with_bootstrap (build_sglang_bootstrap_params c.parse_url drawn p.1 default_bootstrap_port)
        request_json

  abbrev pub reply_of : Url → Sent
  reply_of target = c.post target.text (filter_headers headers) request_sent

  -- What a run comes to: a URL that does not parse or a worker that does not answer is the error of the
  -- result, and both requests are still counted; where both workers answer, the result is made of
  -- their answers, and both requests are settled.
  pub data IsEnd (result : PdResult) (t : AppState S) : Type 0 where
    unparsed :
        (e : String)
        → (build_target_url c p.1 path ≡ gone e) ⊎ (build_target_url c d.1 path ≡ gone e)
        → result ≡ err (url_parse e)
        → t ≡ s2
        → IsEnd result t
    unanswered :
        (u v : Url) (e : ReqwestError)
        → build_target_url c p.1 path ≡ got u
        → build_target_url c d.1 path ≡ got v
        → (reply_of u ≡ error e) ⊎ (reply_of v ≡ error e)
        → result ≡ err (worker_request e)
        → t ≡ s2
        → IsEnd result t
    answered :
        (u v : Url) (a b : Answer)
        → build_target_url c p.1 path ≡ got u
        → build_target_url c d.1 path ≡ got v
        → reply_of u ≡ answer a
        → reply_of v ≡ answer b
        → result
          ≡ respond c
              (detect_streaming_info request_json)
              (prefill_json_of c (detect_streaming_info request_json) a)
              b
        → IsSettled lb first second ctx self t
        → IsEnd result t

  abbrev pub Returns : Run lb c → Type 0
  Returns run = (result : PdResult) × (t : AppState S) × (run ≡ ret (result, t)) × IsEnd result t

  module _ (g : IsGiven lb prefill_stage first ctx self s1 p)
      (h : IsGiven lb decode_stage second ctx s1 s2 d) where
    module _ (u v : Url) (at_u : build_target_url c p.1 path ≡ got u)
        (at_v : build_target_url c d.1 path ≡ got v) where
      both_answered-Returns :
          (a b : Answer)
          → reply_of u ≡ answer a
          → reply_of v ≡ answer b
          → Returns (
              both_answered lb c first second prefill_first drawn path request_json ctx headers p.0
                d.0 a b s2)
      unfolding both_answered
      both_answered-Returns a b from_u from_v =
          let (prefill_done, decode_done, ended, over, settled) =
            both_finished lb laws first second ctx self room_p room_d s1 s2 p d g h in
          (
            _,
            _,
            after_ret (finish_prefill_request lb s2 p.0) _ ended (
                after_ret
                  (finish_decode_request lb (record_prefill_request lb first prefill_done ctx p.0)
                    d.0)
                  _ over refl),
            answered u v a b at_u at_v from_u from_v refl settled,
          )

      joined-Returns :
          (a b : Sent)
          → reply_of u ≡ a
          → reply_of v ≡ b
          → Returns (
              joined lb c first second prefill_first drawn path request_json ctx headers p.0 d.0 a b
                s2)
      unfolding joined
      joined-Returns (answer a) (answer b) from_u from_v = both_answered-Returns a b from_u from_v
      joined-Returns (error a) (answer b) from_u from_v =
          (_, s2, refl, unanswered u v a at_u at_v (inl from_u) refl refl)
      joined-Returns (answer a) (error b) from_u from_v =
          (_, s2, refl, unanswered u v b at_u at_v (inr from_v) refl refl)
      joined-Returns (error a) (error b) from_u from_v = earliest prefill_first
        where
          earliest :
              (sooner : Bool) → Returns (ret (err (worker_request (if sooner then a else b)), s2))
          earliest true = (_, s2, refl, unanswered u v a at_u at_v (inl from_u) refl refl)
          earliest false = (_, s2, refl, unanswered u v b at_u at_v (inr from_v) refl refl)

    dispatch-Returns :
        (a b : Got Url)
        → build_target_url c p.1 path ≡ a
        → build_target_url c d.1 path ≡ b
        → Returns (
            dispatch lb c first second prefill_first drawn path request_json ctx headers p.0 d.0
              request_sent a b s2)
    unfolding dispatch
    dispatch-Returns (gone e) b at_a at_b = (_, s2, refl, unparsed e (inl at_a) refl refl)
    dispatch-Returns (got a) (gone e) at_a at_b = (_, s2, refl, unparsed e (inr at_b) refl refl)
    dispatch-Returns (got a) (got b) at_a at_b =
        joined-Returns a b at_a at_b (reply_of a) (reply_of b) refl refl

    decode_with-Returns : Returns (
        decode_with lb c first second prefill_first drawn path request_json ctx headers p.0 p.1
          (some d, s2))
    unfolding decode_with
    decode_with-Returns =
        dispatch-Returns (build_target_url c p.1 path) (build_target_url c d.1 path) refl refl

  -- If the policies of the two stages have room for their pools and each stage gives a worker, then
  -- process_sglang_pd_request returns, whatever the URL parser, the HTTP client, the JSON parser and
  -- printer and the response builder do. Where a target URL does not parse or a worker does not
  -- answer, the result is that error and the state is the one of the selections, in which both
  -- requests are still counted; where both answer, the result is made of their answers, and each
  -- policy is left as its selection left it, with the routing recorded.
  pub process_sglang_pd_request-Returns :
      next_prefill_worker lb first self ctx ≡ ret (some p, s1)
      → next_decode_worker lb second s1 ctx ≡ ret (some d, s2)
      → Returns (
          process_sglang_pd_request lb c first second prefill_first drawn path request_json ctx
            headers self)
  unfolding process_sglang_pd_request prefill_with
  process_sglang_pd_request-Returns selected routed =
      let (result, t, run, left) =
        decode_with-Returns
          (next-IsGiven lb prefill_stage _ _ _ (prefill_IsStage lb) first self s1 ctx p selected)
          (next-IsGiven lb decode_stage _ _ _ (decode_IsStage lb) second s1 s2 ctx d routed) in
      (
        result,
        t,
        after_ret (next_prefill_worker lb first self ctx) _ selected
            (after_ret (next_decode_worker lb second s1 ctx) _ routed run),
        left,
      )
