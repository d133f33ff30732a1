-- ===== src/Routes/Pd/Vllm/Returns.antt =====
-- A vLLM request that both stages can serve always gets a result, whatever the workers do.
use tokendog.Base.{
  ℕ, ◌≡◌, refl, sym, ap, ◌∙◌, String, some, Bool, true, false, ret, List, >>=-assoc, after_ret,
}
use tokendog.Base.Env.{Env}
use tokendog.Policies.{RequestContext, LoadBalancer, IsLawful}
use tokendog.Server.{AppState}
use tokendog.Server.Pd.{next_prefill_worker, next_decode_worker}
use tokendog.Server.Completion.{finish_prefill_request, record_prefill_request}
use tokendog.Server.Stages.{prefill_stage, decode_stage, IsGiven, prefill_IsStage, decode_IsStage}
use tokendog.Server.Stages.Requests.{next-IsGiven}
use tokendog.Server.Stages.Rooms.{HasRoom}
use tokendog.Middleware.Json.{Json, index_set}
use tokendog.Middleware.Context.{HeaderMap}
use tokendog.Routes.Prefill.{prepare_prefill_request, build_prefill_kv_transfer_params}
use tokendog.Routes.Pd.{
  Got, got, gone, Url, Answer, Sent, answer, error, Crates, is_success, build_target_url,
}
use tokendog.Routes.Pd.Vllm.{
  Run, prefill_parsed, prefill_read, prefill_answered, prefill_to, prefill_with,
  process_vllm_pd_request,
}
use tokendog.Routes.Pd.Vllm.Ends.{
  Prepared, after_prefill, prefill_reply, HasReply, prefill_unparsed, prefill_unanswered,
  prefill_refused, prefill_unread, prefill_not_json, Returns, routed_after, prefill_ended,
  prefill_noted, decode_with-Returns,
}

module _ {S : Type 0} (lb : LoadBalancer S) (laws : IsLawful lb) (c : Crates) (first second : Env)
    (path : String) (request_json : Json) (ctx : RequestContext) (headers : HeaderMap)
    (self s1 : AppState S) (p d : ℕ × String) (request : Json) where
  module _ (room_p : HasRoom laws prefill_stage self) (room_d : HasRoom laws decode_stage self)
      (g : IsGiven lb prefill_stage first ctx self s1 p) (s2 : AppState S)
      (h : IsGiven lb decode_stage second ctx
        (after_prefill lb laws c first second path request_json ctx headers self s1 p d request g)
        s2
        d)
      (routed : next_decode_worker lb second
          (after_prefill lb laws c first second path request_json ctx headers self s1 p d request g)
          ctx
        ≡ ret (some d, s2)) where
    abbrev IsServed : Run lb c → Type 0
    IsServed run =
        Returns lb laws c first second path request_json ctx headers self s1 p d request run

    prefill_parsed-Returns :
        (a : Answer) (read : List ℕ)
        → HasReply lb laws c first second path request_json ctx headers self s1 p d request a true
        → a.bytes ≡ got read
        → (parsed : Got Json) → c.parse read ≡ parsed
        → IsServed (prefill_parsed lb c second path request_json ctx headers first p.0 parsed s1)
    unfolding prefill_parsed
    prefill_parsed-Returns a read has at (gone e) from =
        (_, s1, refl, prefill_not_json a read e has at from refl refl)
    prefill_parsed-Returns a read has at (got prefill_json) from =
        let (result, t, run, left) =
          decode_with-Returns lb laws c first second path request_json ctx headers self s1 p d
            request room_p room_d g s2 h prefill_json (a, read, has, at, from) in
        (
          result,
          t,
          after_ret (finish_prefill_request lb s1 p.0) _
              (prefill_ended lb laws c first second path request_json ctx headers self s1 p d
                request room_p room_d g)
              (after_ret
                (next_decode_worker lb second
                  (record_prefill_request lb first (prefill_stage.put self (some g.chosen)) ctx p.0)
                  ctx)
                _
                (ap (λ x. next_decode_worker lb second x ctx)
                    (prefill_noted lb laws c first second path request_json ctx headers self s1 p d
                      request room_p room_d g)
                  ∙ routed)
                run),
          left,
        )

    prefill_read-Returns :
        (a : Answer)
        → HasReply lb laws c first second path request_json ctx headers self s1 p d request a true
        → (read : Got (List ℕ)) → a.bytes ≡ read
        → IsServed (prefill_read lb c second path request_json ctx headers first p.0 read s1)
    unfolding prefill_read
    prefill_read-Returns a has (gone e) at = (_, s1, refl, prefill_unread a e has at refl refl)
    prefill_read-Returns a has (got read) at =
        prefill_parsed-Returns a read has at (c.parse read) refl

    replied :
        (a : Answer) (success : Bool)
        → HasReply lb laws c first second path request_json ctx headers self s1 p d request a
            success
        → IsServed
            (prefill_answered lb c second path request_json ctx headers first p.0 p.1 (answer a) s1)
    unfolding prefill_answered
    replied a true has = rw (prefill_answered, has.3) (prefill_read-Returns a has a.bytes refl)
    replied a false has =
        rw (prefill_answered, has.3)
          (
            _,
            _,
            after_ret (finish_prefill_request lb s1 p.0) _
                (prefill_ended lb laws c first second path request_json ctx headers self s1 p d
                  request room_p room_d g)
                refl,
            prefill_refused a g has refl refl,
          )

    prefill_answered-Returns :
        (u : Url)
        → build_target_url c p.1 path ≡ got u
        → (sent : Sent)
        → prefill_reply lb laws c first second path request_json ctx headers self s1 p d request u
          ≡ sent
        → IsServed
            (prefill_answered lb c second path request_json ctx headers first p.0 p.1 sent s1)
    unfolding prefill_answered
    prefill_answered-Returns u at (error e) from =
        (_, s1, refl, prefill_unanswered u e at from refl refl)
    prefill_answered-Returns u at (answer a) from =
        replied a (is_success a.status) (u, at, from, refl)

    prefill_to-Returns :
        (target : Got Url)
        → build_target_url c p.1 path ≡ target
        → IsServed
            (prefill_to lb c second path request_json ctx headers first p.0 p.1 request target s1)
    unfolding prefill_to
    prefill_to-Returns (gone e) at = (_, s1, refl, prefill_unparsed e at refl refl)
    prefill_to-Returns (got u) at =
        prefill_answered-Returns u at
          (prefill_reply lb laws c first second path request_json ctx headers self s1 p d request u)
          refl

    prefill_with-Returns :
        Prepared request_json path request
        → IsServed (prefill_with lb c second path request_json ctx headers first (some p, s1))
    unfolding prefill_with
    prefill_with-Returns prepared =
        let (result, t, run, left) = prefill_to-Returns (build_target_url c p.1 path) refl in
        (
          result,
          t,
          sym (
                >>=-assoc (prepare_prefill_request request_json path)
                  (λ q. index_set "kv_transfer_params" build_prefill_kv_transfer_params q) _)
              ∙ after_ret _ _ prepared run,
          left,
        )

  -- If the policies of the two stages have room for their pools, the request can be prepared for the
  -- prefill and each stage gives a worker, then process_vllm_pd_request returns, whatever the URL
  -- parser, the HTTP client, the JSON parser and printer and the response builder do. Where the
  -- prefill URL does not parse, its worker does not answer, or its answer cannot be read or is no
  -- JSON, the result is that error, and the state the one of the prefill selection, in which the
  -- request is still counted. Where the prefill worker refuses the request, the result is its error,
  -- and the policy is left as the selection left it. Where the decode URL does not parse or its worker
  -- does not answer, the result is that error, and the state the one of the decode selection, in which
  -- the decode request is still counted, with the prefill settled. Where both workers answer, the
  -- result is made of their answers, and both requests are settled, with their routings recorded.
  pub process_vllm_pd_request-Returns :
      (sd : AppState S)
      → HasRoom laws prefill_stage self
      → HasRoom laws decode_stage self
      → Prepared request_json path request
      → next_prefill_worker lb first self ctx ≡ ret (some p, s1)
      → next_decode_worker lb second self ctx ≡ ret (some d, sd)
      → Returns lb laws c first second path request_json ctx headers self s1 p d request
          (process_vllm_pd_request lb c second path request_json ctx headers first self)
  unfolding process_vllm_pd_request
  process_vllm_pd_request-Returns sd room_p room_d prepared selected on_self =
      let g =
        next-IsGiven lb prefill_stage _ _ _ (prefill_IsStage lb) first self s1 ctx p selected in
      let (s2, routed) =
        routed_after lb laws c first second path request_json ctx headers self s1 p d request
          (some (lb.record_routing first g.chosen ctx p.0)) sd on_self in
      let h =
        next-IsGiven lb decode_stage _ _ _ (decode_IsStage lb) second
          (after_prefill lb laws c first second path request_json ctx headers self s1 p d request g)
          s2 ctx d routed in
      let (result, t, run, left) = prefill_with-Returns room_p room_d g s2 h routed prepared in
      (result, t, after_ret (next_prefill_worker lb first self ctx) _ selected run, left)
