-- ===== src/Routes/Pd/Sglang/Answered.antt =====
-- What an SGLang request that is answered leaves in the counters.
use tokendog.Base.{
  ℕ, ◌≡◌, sym, ap, subst, ◌∙◌, String, Option, none, some, Bool, ret, >>=-eq-ret, ret_eq,
}
use tokendog.Base.Env.{Env}
use tokendog.Base.Int.{ℤ}
use tokendog.Policies.{RequestContext, LoadBalancer, IsLawful}
use tokendog.Server.{AppState}
use tokendog.Server.Pd.{next_prefill_worker, next_decode_worker}
use tokendog.Server.Completion.{
  finish_prefill_request, finish_decode_request, record_prefill_request, record_decode_request,
}
use tokendog.Server.Stages.{prefill_stage, decode_stage, IsGiven, prefill_IsStage, decode_IsStage}
use tokendog.Server.Stages.Requests.{next-IsGiven}
use tokendog.Server.Stages.Both.{both_finished}
use tokendog.Server.Stages.Rooms.{HasRoom, IsSettled}
use tokendog.Middleware.Json.{Json}
use tokendog.Middleware.Context.{HeaderMap}
use tokendog.Routes.Pd.{
  Got, got, gone, Url, Answer, Sent, answer, error, PdResponse, ok, Crates, build_target_url,
  filter_headers,
}
use tokendog.Routes.Pd.Bootstrap.{default_bootstrap_port, build_sglang_bootstrap_params}
use tokendog.Routes.Pd.Sglang.{
  both_answered, joined, dispatch, decode_with, prefill_with, process_sglang_pd_request,
  with_bootstrap,
}

module _ {S : Type 0} (lb : LoadBalancer S) (c : Crates) (first second : Env) (prefill_first : Bool)
    (drawn : ℤ) (path : String) (request_json : Json) (ctx : RequestContext) (headers : HeaderMap)
    (r : PdResponse) (t : AppState S) where
  -- Both requests were finished and recorded, in this order.
  BothDone : ℕ → ℕ → AppState S → Type 0
  BothDone i j self =
      (prefill_done decode_done : AppState S) × (finish_prefill_request lb self i
        ≡ ret prefill_done)
      × (finish_decode_request lb (record_prefill_request lb first prefill_done ctx i) j
          ≡ ret decode_done)
      × (t ≡ record_decode_request lb second decode_done ctx j)

  both_answered-ok :
      (i j : ℕ) (a b : Answer) (self : AppState S)
      → both_answered lb c first second prefill_first drawn path request_json ctx headers i j a b
          self
        ≡ ret (ok r, t)
      → BothDone i j self
  unfolding both_answered BothDone
  both_answered-ok i j a b self run =
      let (prefill_done, e1, run1) = >>=-eq-ret (finish_prefill_request lb self i) _ run in
      let (decode_done, e2, same) =
        >>=-eq-ret (finish_decode_request lb (record_prefill_request lb first prefill_done ctx i) j)
          _ run1 in
      let state : t ≡ record_decode_request lb second decode_done ctx j = cc in
      (prefill_done, decode_done, e1, e2, state)

  joined-ok :
      (i j : ℕ) (a b : Sent) (self : AppState S)
      → joined lb c first second prefill_first drawn path request_json ctx headers i j a b self
        ≡ ret (ok r, t)
      → BothDone i j self
  unfolding joined
  joined-ok i j (answer a) (answer b) self run = both_answered-ok i j a b self run
  joined-ok i j (error e) (answer b) self run = cc
  joined-ok i j (answer a) (error e) self run = cc
  joined-ok i j (error e) (error d) self run = cc

  dispatch-ok :
      (i j : ℕ) (request : Json) (p d : Got Url) (self : AppState S)
      → dispatch lb c first second prefill_first drawn path request_json ctx headers i j request p d
          self
        ≡ ret (ok r, t)
      → BothDone i j self
  unfolding dispatch
  dispatch-ok i j request (gone e) d self run = cc
  dispatch-ok i j request (got p) (gone e) self run = cc
  dispatch-ok i j request (got p) (got d) self run =
      joined-ok i j (c.post p.text (filter_headers headers) request)
        (c.post d.text (filter_headers headers) request) self run

  GivenDecode : ℕ → Option (ℕ × String) × AppState S → Type 0
  GivenDecode i (none, self) = ⊥
  GivenDecode i (some (j, url), self) = BothDone i j self

  decode_with-ok :
      (i : ℕ) (prefill_url : String) (given : Option (ℕ × String) × AppState S)
      → decode_with lb c first second prefill_first drawn path request_json ctx headers i
          prefill_url given
        ≡ ret (ok r, t)
      → GivenDecode i given
  unfolding decode_with GivenDecode
  decode_with-ok i prefill_url (none, self) run = cc
  decode_with-ok i prefill_url (some (j, url), self) run =
      dispatch-ok i j
        (with_bootstrap
          (build_sglang_bootstrap_params c.parse_url drawn prefill_url default_bootstrap_port)
          request_json)
        (build_target_url c prefill_url path) (build_target_url c url path) self run

  module _ (laws : IsLawful lb) (self : AppState S) (room_p : HasRoom laws prefill_stage self)
      (room_d : HasRoom laws decode_stage self) where
    both-IsSettled :
        (s1 s2 : AppState S) (p d : ℕ × String)
        → IsGiven lb prefill_stage first ctx self s1 p
        → IsGiven lb decode_stage second ctx s1 s2 d
        → BothDone p.0 d.0 s2
        → IsSettled lb first second ctx self t
    unfolding BothDone
    both-IsSettled s1 s2 p d g h (prefill_done, decode_done, ended, decoded, last) =
        let (prefill_at, decode_at, finished, over, settled) =
          both_finished lb laws first second ctx self room_p room_d s1 s2 p d g h in
        let same_prefill : prefill_at ≡ prefill_done = ret_eq (sym finished ∙ ended) in
        let same_decode : decode_at ≡ decode_done = ret_eq (
          sym over
          ∙ (ap (λ x. finish_decode_request lb (record_prefill_request lb first x ctx p.0) d.0)
                same_prefill
              ∙ decoded)) in
        subst (IsSettled lb first second ctx self)
          (ap (λ x. record_decode_request lb second x ctx d.0) same_decode ∙ sym last) settled

    -- If the policies of the two stages have room for their pools and process_sglang_pd_request
    -- answers with a response, then each stage was given a worker, and each policy is left as its
    -- selection left it, with the routing recorded: no request is left counted.
    pub process_sglang_pd_request-IsSettled :
        process_sglang_pd_request lb c first second prefill_first drawn path request_json ctx
            headers self
          ≡ ret (ok r, t)
        → IsSettled lb first second ctx self t
    unfolding process_sglang_pd_request prefill_with GivenDecode
    process_sglang_pd_request-IsSettled run =
        let (given, selected, rest) = >>=-eq-ret (next_prefill_worker lb first self ctx) _ run in
        prefilled given selected rest
      where
        decoded :
            (i : ℕ) (url : String) (s1 : AppState S) (given : Option (ℕ × String) × AppState S)
            → next_prefill_worker lb first self ctx ≡ ret (some (i, url), s1)
            → next_decode_worker lb second s1 ctx ≡ ret given
            → GivenDecode i given
            → IsSettled lb first second ctx self t
        decoded i url s1 (none, s2) selected routed done = elim done [ ]
        decoded i url s1 (some (j, durl), s2) selected routed done =
            both-IsSettled s1 s2 (i, url) (j, durl)
              (next-IsGiven lb prefill_stage _ _ _ (prefill_IsStage lb) first self s1 ctx (i, url)
                selected)
              (next-IsGiven lb decode_stage _ _ _ (decode_IsStage lb) second s1 s2 ctx (j, durl)
                routed)
              done

        prefilled :
            (given : Option (ℕ × String) × AppState S)
            → next_prefill_worker lb first self ctx ≡ ret given
            → prefill_with lb c first second prefill_first drawn path request_json ctx headers given
              ≡ ret (ok r, t)
            → IsSettled lb first second ctx self t
        prefilled (none, s1) selected rest = cc
        prefilled (some (i, url), s1) selected rest =
            let (given, routed, last) = >>=-eq-ret (next_decode_worker lb second s1 ctx) _ rest in
            decoded i url s1 given selected routed (decode_with-ok i url given last)
