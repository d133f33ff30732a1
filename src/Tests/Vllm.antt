-- ===== src/Tests/Vllm.antt =====
-- A vLLM request that both stages serve.
use tokendog.Base.{◌≡◌, refl, ◌∷◌, [], some, ret}
use tokendog.Policies.Active.{fetch_add}
use tokendog.Policies.Balancer
use tokendog.Policies.Balancer.{Balancer, balancer_trait}
use tokendog.Policies.Balancer.Lawful.{balancer_lawful}
use tokendog.Policies.LeastLoaded
use tokendog.Worker.{healthy_from}
use tokendog.Server.{pick, pick_from}
use tokendog.Server.Pd.{next_decode_worker}
use tokendog.Routes.Prefill.{prepare_prefill_request, build_prefill_kv_transfer_params, limit}
use tokendog.Routes.Pd.Vllm.{process_vllm_pd_request}
use tokendog.Routes.Pd.Vllm.Ends.{Prepared, Returns}
use tokendog.Routes.Pd.Vllm.Returns.{process_vllm_pd_request-Returns}
use tokendog.Tests.Pd.{
  in_pd_mode, request, all_well, before, counted, prefill_has_room, decode_has_room,
  prefill_selected, sent,
}
use tokendog.Tests.Samples.{quiet, tenths, alice}

prepared : Prepared request "/v1/completions" sent
unfolding prepare_prefill_request build_prefill_kv_transfer_params limit
prepared = refl

decode_selected :
    next_decode_worker (balancer_trait tenths) quiet before alice
    ≡ ret (some (1, "http://b:8000"), in_pd_mode (4 ∷ 1 ∷ 0 ∷ []) (0 ∷ 1 ∷ 5 ∷ []))
unfolding next_decode_worker pick_from pick healthy_from Balancer.select_with_context
    Balancer.on_request_start LeastLoaded.select LeastLoaded.scan fetch_add
decode_selected = refl

process_vllm_pd_request-Returns_example :
    Returns
      (balancer_trait tenths)
      (balancer_lawful tenths)
      all_well
      quiet
      quiet
      "/v1/completions"
      request
      alice
      []
      before
      counted
      (2, "http://c:8000")
      (1, "http://b:8000")
      sent
      (process_vllm_pd_request
        (balancer_trait tenths)
        all_well
        quiet
        "/v1/completions"
        request
        alice
        []
        quiet
        before)
process_vllm_pd_request-Returns_example =
    process_vllm_pd_request-Returns (balancer_trait tenths) (balancer_lawful tenths) all_well quiet
      quiet "/v1/completions" request alice [] before counted (2, "http://c:8000")
      (1, "http://b:8000") sent (in_pd_mode (4 ∷ 1 ∷ 0 ∷ []) (0 ∷ 1 ∷ 5 ∷ [])) prefill_has_room
      decode_has_room prepared prefill_selected decode_selected
