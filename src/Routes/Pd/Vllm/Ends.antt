-- ===== src/Routes/Pd/Vllm/Ends.antt =====
-- How a vLLM request that both stages can serve may end, and its decode stage.
use tokendog.Base.{
  Bool, true, false, ◌>>=◌, ℕ, ◌≡◌, refl, sym, ap, ◌∙◌, String, Option, some, ret, List, >>=-eq-ret,
  after_ret,
}
use tokendog.Base.Env.{Env}
use tokendog.Policies.{RequestContext, LoadBalancer, IsLawful}
use tokendog.Server.{AppState, pick_from}
use tokendog.Server.Pd.{next_decode_worker}
use tokendog.Server.Completion.{
  finish_prefill_request, finish_decode_request, record_prefill_request,
}
use tokendog.Server.Routing.{choose_for}
use tokendog.Server.Stages.{prefill_stage, decode_stage, IsGiven, prefill_IsStage, decode_IsStage}
use tokendog.Server.Stages.Requests.{note_put, finish_given}
use tokendog.Server.Stages.Rooms.{
  HasRoom, HasRoom-put_prefill, IsSettled, decode_pool-put_prefill, decode_policy-put_prefill,
}
use tokendog.Middleware.Json.{Json, index_set}
use tokendog.Middleware.Context.{HeaderMap}
use tokendog.Routes.Prefill.{
  prepare_prefill_request, build_prefill_kv_transfer_params, build_decode_kv_transfer_params,
}
use tokendog.Routes.PdError.{
  ReqwestError, prefill_request, prefill_error, prefill_response, prefill_parse, decode_request,
  url_parse,
}
use tokendog.Routes.Pd.{
  Got, got, gone, Url, Answer, Sent, answer, error, err, PdResult, detect_streaming_info, Crates,
  is_success, build_target_url, filter_headers,
}
use tokendog.Routes.Pd.Vllm.{Run, respond, with_params, decode_answered, decode_to, decode_with}
use tokendog.Routes.Pd.Vllm.Answered.{both-IsSettled}

-- The request that goes to the prefill worker.
abbrev pub Prepared : Json → String → Json → Type 0
Prepared request_json path request =
    (prepare_prefill_request request_json path >>= λ q.
    index_set "kv_transfer_params" build_prefill_kv_transfer_params q)
    ≡ ret request

module _ {S : Type 0} (lb : LoadBalancer S) (laws : IsLawful lb) (c : Crates) (first second : Env)
    (path : String) (request_json : Json) (ctx : RequestContext) (headers : HeaderMap)
    (self s1 : AppState S) (p d : ℕ × String) (request : Json) where
  -- The state after the prefill request was finished and recorded.
  abbrev pub after_prefill : IsGiven lb prefill_stage first ctx self s1 p → AppState S
  after_prefill g = prefill_stage.put self (some (lb.record_routing first g.chosen ctx p.0))

  -- What the two workers answer.
  abbrev pub prefill_reply : Url → Sent
  prefill_reply target = c.post target.text (filter_headers headers) request

  abbrev pub decode_reply : Json → Url → Sent
  decode_reply prefill_json target =
      c.post target.text (filter_headers headers)
        (with_params (build_decode_kv_transfer_params prefill_json) request_json)

  -- The prefill worker answered, with success or not.
  abbrev pub HasReply : Answer → Bool → Type 0
  HasReply a success =
      (u : Url) × (build_target_url c p.1 path ≡ got u)
      × (prefill_reply u ≡ answer a)
      × (is_success a.status ≡ success)

  -- Its answer is this JSON value.
  abbrev pub HasJson : Json → Type 0
  HasJson prefill_json =
      (a : Answer) × (read : List ℕ) × HasReply a true
      × (a.bytes ≡ got read)
      × (c.parse read ≡ got prefill_json)

  -- What a run comes to: what happened, the result, and the state that is left.
  pub data IsEnd (result : PdResult) (t : AppState S) : Type 0 where
    prefill_unparsed :
        (e : String)
        → build_target_url c p.1 path ≡ gone e
        → result ≡ err (url_parse e)
        → t ≡ s1
        → IsEnd result t
    prefill_unanswered :
        (u : Url) (e : ReqwestError)
        → build_target_url c p.1 path ≡ got u
        → prefill_reply u ≡ error e
        → result ≡ err (prefill_request p.1 e.text)
        → t ≡ s1
        → IsEnd result t
    prefill_refused :
        (a : Answer) (g : IsGiven lb prefill_stage first ctx self s1 p)
        → HasReply a false
        → result ≡ err (prefill_error a.status a.text)
        → t ≡ prefill_stage.put self (some g.chosen)
        → IsEnd result t
    prefill_unread :
        (a : Answer) (e : String)
        → HasReply a true
        → a.bytes ≡ gone e
        → result ≡ err (prefill_response e)
        → t ≡ s1
        → IsEnd result t
    prefill_not_json :
        (a : Answer) (read : List ℕ) (e : String)
        → HasReply a true
        → a.bytes ≡ got read
        → c.parse read ≡ gone e
        → result ≡ err (prefill_parse e)
        → t ≡ s1
        → IsEnd result t
    decode_unparsed :
        (prefill_json : Json) (e : String) (g : IsGiven lb prefill_stage first ctx self s1 p)
        → HasJson prefill_json
        → build_target_url c d.1 path ≡ gone e
        → result ≡ err (url_parse e)
        → IsGiven lb decode_stage second ctx (after_prefill g) t d
        → IsEnd result t
    decode_unanswered :
        (prefill_json : Json) (v : Url) (e : ReqwestError)
        (g : IsGiven lb prefill_stage first ctx self s1 p)
        → HasJson prefill_json
        → build_target_url c d.1 path ≡ got v
        → decode_reply prefill_json v ≡ error e
        → result ≡ err (decode_request d.1 e.text)
        → IsGiven lb decode_stage second ctx (after_prefill g) t d
        → IsEnd result t
    answered :
        (prefill_json : Json) (v : Url) (b : Answer)
        → HasJson prefill_json
        → build_target_url c d.1 path ≡ got v
        → decode_reply prefill_json v ≡ answer b
        → result ≡ respond c (detect_streaming_info request_json) prefill_json b
        → IsSettled lb first second ctx self t
        → IsEnd result t

  abbrev pub Returns : Run lb c → Type 0
  Returns run = (result : PdResult) × (t : AppState S) × (run ≡ ret (result, t)) × IsEnd result t

  -- A selection that the decode stage makes on `self`, it makes after the prefill too.
  pub routed_after :
      (o : Option S) (sd : AppState S)
      → next_decode_worker lb second self ctx ≡ ret (some d, sd)
      → (t : AppState S) × (next_decode_worker lb second (prefill_stage.put self o) ctx
          ≡ ret (some d, t))
  routed_after o sd e =
      let is = decode_IsStage lb in
      let (r, picked, last) =
        >>=-eq-ret
          (pick_from lb (choose_for lb second ctx) (decode_stage.pool self)
            (decode_stage.policy self))
          _ (sym (is.next_lem second self ctx) ∙ e) in
      let found : r.0 ≡ some d = cc in
      (
        decode_stage.put (prefill_stage.put self o) r.1,
        is.next_lem second (prefill_stage.put self o) ctx
            ∙ rw (decode_pool-put_prefill laws self o, decode_policy-put_prefill laws self o)
                (after_ret _ _ picked
                  (ap (λ f. ret (f, decode_stage.put (prefill_stage.put self o) r.1)) found)),
      )

  module _ (room_p : HasRoom laws prefill_stage self) (room_d : HasRoom laws decode_stage self)
      (g : IsGiven lb prefill_stage first ctx self s1 p) where
    pub prefill_ended :
        finish_prefill_request lb s1 p.0 ≡ ret (prefill_stage.put self (some g.chosen))
    prefill_ended =
        finish_given lb prefill_stage _ _ _ (prefill_IsStage lb) laws first self s1 ctx p g
          (room_p g.workers g.before g.served g.policy_before)

    pub prefill_noted :
        record_prefill_request lb first (prefill_stage.put self (some g.chosen)) ctx p.0
        ≡ after_prefill g
    prefill_noted = note_put lb prefill_stage _ _ _ (prefill_IsStage lb) first self g.chosen ctx p.0

    module _ (s2 : AppState S) (h : IsGiven lb decode_stage second ctx (after_prefill g) s2 d) where
      decode_ended :
          finish_decode_request lb s2 d.0 ≡ ret (decode_stage.put (after_prefill g) (some h.chosen))
      decode_ended =
          let room =
            HasRoom-put_prefill laws self (some (lb.record_routing first g.chosen ctx p.0))
              room_d in
          finish_given lb decode_stage _ _ _ (decode_IsStage lb) laws second (after_prefill g) s2
            ctx d h (room h.workers h.before h.served h.policy_before)

      decode_answered-Returns :
          (prefill_json : Json) (v : Url)
          → HasJson prefill_json
          → build_target_url c d.1 path ≡ got v
          → (sent : Sent) → decode_reply prefill_json v ≡ sent
          → Returns (
              decode_answered lb c second path request_json ctx headers prefill_json d.0 d.1 sent
                s2)
      unfolding decode_answered
      decode_answered-Returns prefill_json v has at (error e) from =
          (_, s2, refl, decode_unanswered prefill_json v e g has at from refl h)
      decode_answered-Returns prefill_json v has at (answer b) from = (
        _,
        _,
        after_ret (finish_decode_request lb s2 d.0) _ decode_ended refl,
        answered prefill_json v b has at from refl
            (both-IsSettled lb laws first second ctx self s1 s2 p d g h),
      )

      decode_to-Returns :
          (prefill_json : Json)
          → HasJson prefill_json
          → (target : Got Url) → build_target_url c d.1 path ≡ target
          → Returns
              (decode_to lb c second path request_json ctx headers prefill_json d.0 d.1 target s2)
      unfolding decode_to
      decode_to-Returns prefill_json has (gone e) at =
          (_, s2, refl, decode_unparsed prefill_json e g has at refl h)
      decode_to-Returns prefill_json has (got v) at =
          decode_answered-Returns prefill_json v has at (decode_reply prefill_json v) refl

      pub decode_with-Returns :
          (prefill_json : Json)
          → HasJson prefill_json
          → Returns
              (decode_with lb c second path request_json ctx headers prefill_json (some d, s2))
      unfolding decode_with
      decode_with-Returns prefill_json has =
          decode_to-Returns prefill_json has (build_target_url c d.1 path) refl
