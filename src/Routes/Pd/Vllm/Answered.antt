-- ===== src/Routes/Pd/Vllm/Answered.antt =====
-- A vLLM request that is answered, from its two selections to the state it leaves.
use tokendog.Base.{subst, ℕ, ◌≡◌, sym, ap, ◌∙◌, String, Option, none, some, ret, >>=-eq-ret, ret_eq}
use tokendog.Base.Env.{Env}
use tokendog.Policies.{RequestContext, LoadBalancer, IsLawful}
use tokendog.Server.{AppState}
use tokendog.Server.Pd.{next_prefill_worker, next_decode_worker}
use tokendog.Server.Completion.{
  finish_prefill_request, record_prefill_request, record_decode_request,
}
use tokendog.Server.Stages.{prefill_stage, decode_stage, IsGiven, prefill_IsStage, decode_IsStage}
use tokendog.Server.Stages.Requests.{next-IsGiven, note_put, finish_given}
use tokendog.Server.Stages.Rooms.{
  HasRoom, HasRoom-put_prefill, IsSettled, decode_pool-put_prefill, decode_policy-put_prefill,
}
use tokendog.Middleware.Json.{Json}
use tokendog.Middleware.Context.{HeaderMap}
use tokendog.Routes.Pd.{PdResponse, ok, Crates}
use tokendog.Routes.Pd.Vllm.{process_vllm_pd_request}
use tokendog.Routes.Pd.Vllm.Counted.{
  DecodeDone, GivenDecode, PrefillDone, GivenPrefill, prefill_with-ok,
}

module _ {S : Type 0} (lb : LoadBalancer S) (laws : IsLawful lb) where
  -- Both requests finished and recorded, the decode request on the state that the prefill left.
  pub both-IsSettled :
      (first second : Env) (ctx : RequestContext) (self s1 s2 : AppState S) (p d : ℕ × String)
      (g : IsGiven lb prefill_stage first ctx self s1 p)
      (h : IsGiven lb decode_stage second ctx
        (prefill_stage.put self (some (lb.record_routing first g.chosen ctx p.0)))
        s2
        d)
      → IsSettled lb first second ctx self (
          record_decode_request lb second
            (decode_stage.put
              (prefill_stage.put self (some (lb.record_routing first g.chosen ctx p.0)))
              (some h.chosen))
            ctx
            d.0)
  both-IsSettled first second ctx self s1 s2 p d g h =
      let P = some (lb.record_routing first g.chosen ctx p.0) in
      record {
        prefill_worker = p;
        after_prefill = s1;
        prefill = g;
        decode_worker = d;
        before_decode = prefill_stage.put self P;
        after_decode = s2;
        decode = h;
        same_pool = decode_pool-put_prefill laws self P;
        same_policy = decode_policy-put_prefill laws self P;
        settled =
            note_put lb decode_stage _ _ _ (decode_IsStage lb) second (prefill_stage.put self P)
              h.chosen ctx d.0;
      }

  decode-IsSettled :
      (first second : Env) (ctx : RequestContext) (self s1 finished t : AppState S)
      (found : ℕ × String) (g : IsGiven lb prefill_stage first ctx self s1 found) (r : PdResponse)
      (given : Option (ℕ × String) × AppState S) (c : Crates) (path : String) (request_json : Json)
      (headers : HeaderMap)
      → HasRoom laws prefill_stage self
      → HasRoom laws decode_stage self
      → finish_prefill_request lb s1 found.0 ≡ ret finished
      → next_decode_worker lb second (record_prefill_request lb first finished ctx found.0) ctx
        ≡ ret given
      → GivenDecode lb c second path request_json ctx headers first r t given
      → IsSettled lb first second ctx self t
  unfolding GivenDecode DecodeDone
  decode-IsSettled first second ctx self s1 finished t found g r (none, s2) c path request_json
        headers room_p room_d ended routed done =
      elim done [ ]
  decode-IsSettled first second ctx self s1 finished t found g r (some (j, url), s2) c path
        request_json headers room_p room_d ended routed (over, decoded, last) =
      let P = lb.record_routing first g.chosen ctx found.0 in
      let base = prefill_stage.put self (some P) in
      let back : ret finished ≡ ret (prefill_stage.put self (some g.chosen)) =
        sym ended
        ∙ finish_given lb prefill_stage _ _ _ (prefill_IsStage lb) laws first self s1 ctx found g
            (room_p g.workers g.before g.served g.policy_before) in
      let state : finished ≡ prefill_stage.put self (some g.chosen) = ret_eq back in
      let noted : record_prefill_request lb first finished ctx found.0 ≡ base =
        ap (λ x. record_prefill_request lb first x ctx found.0) state
        ∙ note_put lb prefill_stage _ _ _ (prefill_IsStage lb) first self g.chosen ctx found.0 in
      let h =
        next-IsGiven lb decode_stage _ _ _ (decode_IsStage lb) second base s2 ctx (j, url)
          (ap (λ x. next_decode_worker lb second x ctx) (sym noted) ∙ routed) in
      let room' = HasRoom-put_prefill laws self (some P) room_d in
      let back' : ret over ≡ ret (decode_stage.put base (some h.chosen)) =
        sym decoded
        ∙ finish_given lb decode_stage _ _ _ (decode_IsStage lb) laws second base s2 ctx (j, url) h
            (room' h.workers h.before h.served h.policy_before) in
      let state' : over ≡ decode_stage.put base (some h.chosen) = ret_eq back' in
      subst (IsSettled lb first second ctx self)
        (sym (last ∙ ap (λ x. record_decode_request lb second x ctx j) state'))
        (both-IsSettled first second ctx self s1 s2 found (j, url) g h)

  -- If the policies of the two stages have room for their pools and process_vllm_pd_request answers
  -- with a response, then each stage was given a worker, and each policy is left as its selection
  -- left it, with the routing recorded: no request is left counted.
  pub process_vllm_pd_request-IsSettled :
      (c : Crates) (first second : Env) (path : String) (request_json : Json) (ctx : RequestContext)
      (headers : HeaderMap) (self t : AppState S) (r : PdResponse)
      → HasRoom laws prefill_stage self
      → HasRoom laws decode_stage self
      → process_vllm_pd_request lb c second path request_json ctx headers first self ≡ ret (ok r, t)
      → IsSettled lb first second ctx self t
  unfolding process_vllm_pd_request GivenPrefill PrefillDone
  process_vllm_pd_request-IsSettled c first second path request_json ctx headers self t r room_p
        room_d run =
      let (given, selected, rest) = >>=-eq-ret (next_prefill_worker lb first self ctx) _ run in
      settle given selected
        (prefill_with-ok lb c second path request_json ctx headers first r t given rest)
    where
      settle :
          (given : Option (ℕ × String) × AppState S)
          → next_prefill_worker lb first self ctx ≡ ret given
          → GivenPrefill lb c second path request_json ctx headers first r t given
          → IsSettled lb first second ctx self t
      settle (none, s1) selected done = elim done [ ]
      settle (some (i, url), s1) selected (finished, given, ended, routed, decoded) =
          decode-IsSettled first second ctx self s1 finished t (i, url)
            (next-IsGiven lb prefill_stage _ _ _ (prefill_IsStage lb) first self s1 ctx (i, url)
              selected)
            r given c path request_json headers room_p room_d ended routed decoded
