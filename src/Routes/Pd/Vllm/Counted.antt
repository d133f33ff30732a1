-- ===== src/Routes/Pd/Vllm/Counted.antt =====
-- What a vLLM request leaves in the counters.
use tokendog.Base.{ℕ, ◌≡◌, String, List, Option, none, some, ret, >>=-eq-ret, Bool-cases, inl, inr}
use tokendog.Base.Env.{Env}
use tokendog.Policies.{RequestContext, LoadBalancer}
use tokendog.Server.{AppState}
use tokendog.Server.Pd.{next_decode_worker}
use tokendog.Server.Completion.{
  finish_prefill_request, finish_decode_request, record_prefill_request, record_decode_request,
}
use tokendog.Middleware.Json.{Json, index_set}
use tokendog.Middleware.Context.{HeaderMap}
use tokendog.Routes.Prefill.{prepare_prefill_request, build_prefill_kv_transfer_params}
use tokendog.Routes.Pd.{
  Got, got, gone, Url, Sent, answer, error, PdResponse, ok, Crates, is_success, build_target_url,
  filter_headers,
}
use tokendog.Routes.Pd.Vllm.{
  decode_answered, decode_to, decode_with, prefill_parsed, prefill_read, prefill_answered,
  prefill_to, prefill_with,
}

module _ {S : Type 0} (lb : LoadBalancer S) (c : Crates) (second : Env) (path : String)
    (request_json : Json) (ctx : RequestContext) (headers : HeaderMap) (first : Env)
    (r : PdResponse) (t : AppState S) where
  -- The decode request of a run with a response: it was finished and recorded.
  unfoldable pub DecodeDone : ℕ → AppState S → Type 0
  DecodeDone j self =
      (finished : AppState S) × (finish_decode_request lb self j ≡ ret finished)
      × (t ≡ record_decode_request lb second finished ctx j)

  decode_answered-ok :
      (pj : Json) (j : ℕ) (url : String) (sent : Sent) (self : AppState S)
      → decode_answered lb c second path request_json ctx headers pj j url sent self ≡ ret (ok r, t)
      → DecodeDone j self
  unfolding decode_answered DecodeDone
  decode_answered-ok pj j url (error e) self run = cc
  decode_answered-ok pj j url (answer a) self run =
      let (finished, ended, same) = >>=-eq-ret (finish_decode_request lb self j) _ run in
      let state : t ≡ record_decode_request lb second finished ctx j = cc in
      (finished, ended, state)

  decode_to-ok :
      (pj : Json) (j : ℕ) (url : String) (target : Got Url) (self : AppState S)
      → decode_to lb c second path request_json ctx headers pj j url target self ≡ ret (ok r, t)
      → DecodeDone j self
  unfolding decode_to
  decode_to-ok pj j url (gone e) self run = cc
  decode_to-ok pj j url (got target) self run = decode_answered-ok pj j url _ self run

  unfoldable pub GivenDecode : Option (ℕ × String) × AppState S → Type 0
  GivenDecode (none, self) = ⊥
  GivenDecode (some (j, url), self) = DecodeDone j self

  decode_with-ok :
      (pj : Json) (given : Option (ℕ × String) × AppState S)
      → decode_with lb c second path request_json ctx headers pj given ≡ ret (ok r, t)
      → GivenDecode given
  unfolding decode_with GivenDecode
  decode_with-ok pj (none, self) run = cc
  decode_with-ok pj (some (j, url), self) run = decode_to-ok pj j url _ self run

  -- The prefill request was finished and recorded, and the decode stage was entered.
  unfoldable pub PrefillDone : ℕ → AppState S → Type 0
  PrefillDone i self =
      (finished : AppState S) × (given : Option (ℕ × String) × AppState S) × (finish_prefill_request
          lb self i
        ≡ ret finished)
      × (next_decode_worker lb second (record_prefill_request lb first finished ctx i) ctx
          ≡ ret given)
      × GivenDecode given

  prefill_parsed-ok :
      (i : ℕ) (parsed : Got Json) (self : AppState S)
      → prefill_parsed lb c second path request_json ctx headers first i parsed self ≡ ret (ok r, t)
      → PrefillDone i self
  unfolding prefill_parsed PrefillDone
  prefill_parsed-ok i (gone e) self run = cc
  prefill_parsed-ok i (got pj) self run =
      let (finished, ended, run') = >>=-eq-ret (finish_prefill_request lb self i) _ run in
      let (given, routed, rest) =
        >>=-eq-ret
          (next_decode_worker lb second (record_prefill_request lb first finished ctx i) ctx) _
          run' in
      (finished, given, ended, routed, decode_with-ok pj given rest)

  prefill_answered-ok :
      (i : ℕ) (url : String) (sent : Sent) (self : AppState S)
      → prefill_answered lb c second path request_json ctx headers first i url sent self
        ≡ ret (ok r, t)
      → PrefillDone i self
  unfolding prefill_answered prefill_read
  prefill_answered-ok i url (error e) self run = cc
  prefill_answered-ok i url (answer a) self run = elim (Bool-cases (is_success a.status)) [
    | inl success ↦ read a.bytes (rw (prefill_answered, success) at run)
    | inr refused ↦
        let (finished, ended, same) =
          >>=-eq-ret (finish_prefill_request lb self i) _ (rw (prefill_answered, refused) at run) in
        cc
  ]
    where
      read :
          (bytes : Got (List ℕ))
          → prefill_read lb c second path request_json ctx headers first i bytes self
            ≡ ret (ok r, t)
          → PrefillDone i self
      read (gone e) run' = cc
      read (got bytes) run' = prefill_parsed-ok i (c.parse bytes) self run'

  prefill_to-ok :
      (i : ℕ) (url : String) (request : Json) (target : Got Url) (self : AppState S)
      → prefill_to lb c second path request_json ctx headers first i url request target self
        ≡ ret (ok r, t)
      → PrefillDone i self
  unfolding prefill_to
  prefill_to-ok i url request (gone e) self run = cc
  prefill_to-ok i url request (got target) self run =
      prefill_answered-ok i url (c.post target.text (filter_headers headers) request) self run

  unfoldable pub GivenPrefill : Option (ℕ × String) × AppState S → Type 0
  GivenPrefill (none, self) = ⊥
  GivenPrefill (some (i, url), self) = PrefillDone i self

  pub prefill_with-ok :
      (given : Option (ℕ × String) × AppState S)
      → prefill_with lb c second path request_json ctx headers first given ≡ ret (ok r, t)
      → GivenPrefill given
  unfolding prefill_with GivenPrefill
  prefill_with-ok (none, self) run = cc
  prefill_with-ok (some (i, url), self) run =
      let (prepared, e1, run1) = >>=-eq-ret (prepare_prefill_request request_json path) _ run in
      let (request, e2, run2) =
        >>=-eq-ret (index_set "kv_transfer_params" build_prefill_kv_transfer_params prepared) _
          run1 in
      prefill_to-ok i url request (build_target_url c url path) self run2
