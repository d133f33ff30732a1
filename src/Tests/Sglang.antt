-- ===== src/Tests/Sglang.antt =====
-- An SGLang request that both stages serve.
use tokendog.Base.{◌≡◌, refl, ◌∷◌, [], some, true, ret}
use tokendog.Base.Int.{pos}
use tokendog.Policies.Active.{fetch_add}
use tokendog.Policies.Balancer
use tokendog.Policies.Balancer.{Balancer, balancer_trait}
use tokendog.Policies.Balancer.Lawful.{balancer_lawful}
use tokendog.Policies.LeastLoaded
use tokendog.Worker.{healthy_from}
use tokendog.Server.{AppState, pick, pick_from}
use tokendog.Server.Pd.{next_decode_worker}
use tokendog.Routes.Pd.Sglang.{process_sglang_pd_request}
use tokendog.Routes.Pd.Sglang.Returns.{Returns, process_sglang_pd_request-Returns}
use tokendog.Tests.Pd.{
  in_pd_mode, request, all_well, before, counted, prefill_has_room, decode_has_room,
  prefill_selected,
}
use tokendog.Tests.Samples.{quiet, tenths, alice}

-- Worker 1 was selected for the decode, and is counted.
abbrev both_counted : AppState (Balancer tenths)
both_counted = in_pd_mode (4 ∷ 1 ∷ 1 ∷ []) (0 ∷ 1 ∷ 5 ∷ [])

decode_selected :
    next_decode_worker (balancer_trait tenths) quiet counted alice
    ≡ ret (some (1, "http://b:8000"), both_counted)
unfolding next_decode_worker pick_from pick healthy_from Balancer.select_with_context
    Balancer.on_request_start LeastLoaded.select LeastLoaded.scan fetch_add
decode_selected = refl

process_sglang_pd_request-Returns_example :
    Returns
      (balancer_trait tenths)
      (balancer_lawful tenths)
      all_well
      quiet
      quiet
      true
      (pos 7)
      "/v1/completions"
      request
      alice
      []
      before
      prefill_has_room
      decode_has_room
      counted
      both_counted
      (2, "http://c:8000")
      (1, "http://b:8000")
      (process_sglang_pd_request
        (balancer_trait tenths)
        all_well
        quiet
        quiet
        true
        (pos 7)
        "/v1/completions"
        request
        alice
        []
        before)
process_sglang_pd_request-Returns_example =
    process_sglang_pd_request-Returns (balancer_trait tenths) (balancer_lawful tenths) all_well
      quiet quiet true (pos 7) "/v1/completions" request alice [] before prefill_has_room
      decode_has_room counted both_counted (2, "http://c:8000") (1, "http://b:8000")
      prefill_selected decode_selected
