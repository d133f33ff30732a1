-- ===== src/Tests/Pd.antt =====
-- A request that a prefill and a decode worker serve.
use tokendog.Base.{
  ℕ, ◌≤◌, ◌≡◌, ◌⊎◌, inr, refl, String, List, [], ◌∷◌, Option, none, some, true, false, arith, ret,
  length, subst, some_eq,
}
use tokendog.Base.Int.{pos}
use tokendog.Config.{PdMode, vllm}
use tokendog.Middleware.Json.{Json, object, string, number, pos_int, boolean, field, no_fields}
use tokendog.Middleware.Error.{SendError, connect}
use tokendog.Middleware.Handler.{Response, Outgoing, collected}
use tokendog.Middleware.Header.{filter_hop_by_hop}
use tokendog.Policies.LeastLoaded
use tokendog.Policies.Active.{fetch_add, fetch_sub}
use tokendog.Policies.Balancer
use tokendog.Policies.Balancer.{Balancer, least, balancer_trait}
use tokendog.Policies.Balancer.Room.{Room}
use tokendog.Policies.Balancer.Lawful.{balancer_lawful}
use tokendog.Worker.{healthy_from}
use tokendog.Server.{AppState, pick, pick_from}
use tokendog.Server.Pd.{next_prefill_worker, next_decode_worker}
use tokendog.Server.Completion.{
  finish_prefill_request, finish_decode_request, record_prefill_request, record_decode_request,
}
use tokendog.Server.Stages.{prefill_stage, decode_stage}
use tokendog.Server.Stages.Rooms.{HasRoom}
use tokendog.Routes.Prefill.{
  prepare_prefill_request, build_prefill_kv_transfer_params, build_decode_kv_transfer_params, limit,
}
use tokendog.Routes.Pd.{
  got, Url, Sent, answer, whole, PdResponse, Crates, is_inference_path, build_response,
  detect_streaming_info,
}
use tokendog.Routes.Pd.Vllm.{respond, process_vllm_pd_request}
use tokendog.Routes.Pd.Handler.{PdRequest, served, pd_proxy_handler}
use tokendog.Routes.Pd.Handler.Settled.{ServedBy, pd_proxy_handler-IsSettled}
use tokendog.Tests.Samples.{quiet, tenths, alice, pool}
use tokendog.Tests.Server.{serving}

abbrev pub in_pd_mode : List ℕ → List ℕ → AppState (Balancer tenths)
in_pd_mode prefill decode = record (serving pool (0 ∷ 0 ∷ 0 ∷ [])) {
  pd_mode = some vllm;
  prefill_workers = pool;
  decode_workers = pool;
  prefill_policy = some (least (record { active = prefill }));
  decode_policy = some (least (record { active = decode }));
}

abbrev pub request : Json
request = object (field "prompt" (string "hello") no_fields)

abbrev pub url_at : String → Url
url_at s = record { text = s; host_str = none; port = none }

abbrev pub well_answered : Sent
well_answered = answer (record { status = 200; headers = []; text = ""; bytes = got (1 ∷ []) })

-- Every request is answered with a JSON object.
abbrev pub all_well : Crates
all_well = record {
  parse = λ bytes. got request;
  to_vec = λ v. got [];
  parse_url = λ s. got (url_at s);
  post = λ url headers body. well_answered;
  build = λ r. got r;
}

abbrev pub chat : PdRequest
chat = record {
  path = "/v1/completions";
  inner = record {
    method = "POST";
    path_and_query = some "/v1/completions";
    headers = [];
    body = collected (1 ∷ 2 ∷ []);
  };
}

abbrev pub no_send : Outgoing → Response ⊎ SendError
no_send out = inr connect

abbrev pub as_given : Response → Option Response
as_given response = some response

abbrev given_back : PdResponse
given_back = record { status = 200; headers = []; payload = whole (1 ∷ []) }

abbrev pub before : AppState (Balancer tenths)
before = in_pd_mode (4 ∷ 1 ∷ 0 ∷ []) (0 ∷ 0 ∷ 5 ∷ [])

chat_served :
    pd_proxy_handler
      (balancer_trait tenths)
      all_well
      no_send
      as_given
      quiet
      quiet
      true
      (pos 7)
      chat
      before
    ≡ ret (served given_back, before)
unfolding pd_proxy_handler process_vllm_pd_request next_prefill_worker next_decode_worker pick_from
    pick healthy_from Balancer.select_with_context Balancer.on_request_start Balancer.on_request_end
    Balancer.record_routing LeastLoaded.select LeastLoaded.scan fetch_add fetch_sub
    prepare_prefill_request build_prefill_kv_transfer_params build_decode_kv_transfer_params limit
    finish_prefill_request finish_decode_request record_prefill_request record_decode_request
    respond build_response detect_streaming_info filter_hop_by_hop
chat_served = refl

pub prefill_has_room : HasRoom (balancer_lawful tenths) prefill_stage before
prefill_has_room workers p pool_at policy_at =
    let same_pool : pool ≡ workers = some_eq pool_at in
    let same_policy : least (record { active = 4 ∷ 1 ∷ 0 ∷ [] }) ≡ p = some_eq policy_at in
    subst (λ q. Room tenths q (length workers)) same_policy
      (rw (← same_pool) (omega arith, (omega arith, (omega arith, (omega arith, tt)))))

pub decode_has_room : HasRoom (balancer_lawful tenths) decode_stage before
decode_has_room workers p pool_at policy_at =
    let same_pool : pool ≡ workers = some_eq pool_at in
    let same_policy : least (record { active = 0 ∷ 0 ∷ 5 ∷ [] }) ≡ p = some_eq policy_at in
    subst (λ q. Room tenths q (length workers)) same_policy
      (rw (← same_pool) (omega arith, (omega arith, (omega arith, (omega arith, tt)))))

pd_proxy_handler-IsSettled_example :
    (mode : PdMode) × (before.pd_mode ≡ some mode)
    × (is_inference_path "/v1/completions" ≡ true)
    × (bytes : List ℕ) × (chat.inner.body ≡ collected bytes)
    × (length bytes ≤ 16777216)
    × ServedBy
        (balancer_trait tenths)
        (balancer_lawful tenths)
        all_well
        no_send
        as_given
        quiet
        quiet
        true
        (pos 7)
        chat
        before
        before
        given_back
        prefill_has_room
        decode_has_room
        bytes
pd_proxy_handler-IsSettled_example =
    pd_proxy_handler-IsSettled (balancer_trait tenths) (balancer_lawful tenths) all_well no_send
      as_given quiet quiet true (pos 7) chat before before given_back prefill_has_room
      decode_has_room chat_served

-- Worker 2 was selected for the prefill, and is counted.
abbrev pub counted : AppState (Balancer tenths)
counted = in_pd_mode (4 ∷ 1 ∷ 1 ∷ []) (0 ∷ 0 ∷ 5 ∷ [])

pub prefill_selected :
    next_prefill_worker (balancer_trait tenths) quiet before alice
    ≡ ret (some (2, "http://c:8000"), counted)
unfolding next_prefill_worker pick_from pick healthy_from Balancer.select_with_context
    Balancer.on_request_start LeastLoaded.select LeastLoaded.scan fetch_add
prefill_selected = refl

abbrev pub sent : Json
sent = object (
    field "prompt" (string "hello") (
      field "max_tokens" (number (pos_int 1)) (
        field "stream" (boolean false)
          (field "kv_transfer_params" build_prefill_kv_transfer_params no_fields))))
