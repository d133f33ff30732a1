-- ===== src/Tests/Front.antt =====
-- The proxy, its headers and its context, the selectors and the bearer tokens.
use tokendog.Base.{
  ◌≡◌, ◌⊎◌, inl, refl, ℕ, String, List, [], ◌∷◌, Option, none, some, true, false, arith, ret, map,
  panic,
}
use tokendog.Config.Selectors.{parse_selector, IsLast, lookup-parse_selector}
use tokendog.Base.Map.{lookup}
use tokendog.Policies.Balancer
use tokendog.Policies.Balancer.{Balancer, least, balancer_trait}
use tokendog.Policies.Balancer.Lawful.{balancer_lawful}
use tokendog.Server.Routing.{with_policy, choose_for}
use tokendog.Worker.{healthy_worker_urls}
use tokendog.Middleware.Json.{
  Json, Fields, field, no_fields, object, boolean, number, pos_int, string, get,
}
use tokendog.Routes.Prefill.{
  one, IsAtMostOne, prepare_prefill_request, prepare_prefill_request_chat,
  prepare_prefill_request_panics,
}
use tokendog.Middleware.Context.{extract_context}
use tokendog.Middleware.Error.{SendError}
use tokendog.Middleware.Handler.{Request, Response, Outgoing, Reply, collected, proxy_handler}
use tokendog.Middleware.Handler.Restored.{IsLeft, proxy_handler_returns}
use tokendog.Tests.Samples.{quiet, tenths, pool}
use tokendog.Tests.Server.{serving, routed}

abbrev no_json : List ℕ → Option Json
no_json bytes = none

abbrev any_url : String → Option String
any_url url = some url

abbrev echo : Outgoing → Response ⊎ SendError
echo out = inl (record { status = 200; headers = out.headers; body = out.body })

abbrev as_given : Response → Option Response
as_given response = some response

abbrev by_alice : Request
by_alice = record {
  method = "POST";
  path_and_query = some "/v1/completions";
  headers = ("authorization", some "alice") ∷ ("host", some "gateway") ∷ [];
  body = collected (1 ∷ 2 ∷ []);
}

proxy_handler_returns_example :
    (k : ℕ) × (chosen left : Balancer tenths) × (reply : Reply) × (choose_for
        (balancer_trait tenths)
        quiet
        (extract_context none by_alice.headers)
        (least (record { active = 4 ∷ 1 ∷ 0 ∷ [] }))
        (map (λ w. w.1) (healthy_worker_urls pool))
      ≡ ret (k, chosen))
    × IsLeft
        (balancer_trait tenths)
        (balancer_lawful tenths)
        no_json
        any_url
        echo
        as_given
        quiet
        (extract_context none by_alice.headers)
        2
        chosen
        left
    × (proxy_handler
          (balancer_trait tenths)
          no_json
          any_url
          echo
          as_given
          quiet
          (serving pool (4 ∷ 1 ∷ 0 ∷ []))
          by_alice
        ≡ ret (reply, with_policy (serving pool (4 ∷ 1 ∷ 0 ∷ [])) left))
unfolding Balancer.select_with_context
proxy_handler_returns_example =
    proxy_handler_returns (balancer_trait tenths) (balancer_lawful tenths) no_json any_url echo
      as_given quiet (serving pool (4 ∷ 1 ∷ 0 ∷ [])) (serving pool (4 ∷ 1 ∷ 1 ∷ [])) by_alice
      (1 ∷ 2 ∷ []) pool (least (record { active = 4 ∷ 1 ∷ 0 ∷ [] })) 2 "http://c:8000" refl
      (omega arith) refl refl (omega arith, (omega arith, (omega arith, (omega arith, tt))))
      (routed (extract_context none by_alice.headers))

lookup-parse_selector_example :
    IsLast "app"
      ("app=a" ∷ "x" ∷ "app=b" ∷ [])
      none
      (lookup "app" (parse_selector ("app=a" ∷ "x" ∷ "app=b" ∷ [])))
lookup-parse_selector_example = lookup-parse_selector "app" ("app=a" ∷ "x" ∷ "app=b" ∷ [])

abbrev same_text : String → String
same_text s = s

abbrev chat_fields : Fields
chat_fields = field "model" (string "m") (
    field "max_completion_tokens" (number (pos_int 512))
      (field "min_tokens" (number (pos_int 9)) (field "stream" (boolean true) no_fields)))

prepare_prefill_request_chat_example :
    (r : Json) × (prepare_prefill_request (object chat_fields) "/v1/chat/completions" ≡ ret r)
    × (get "max_tokens" r ≡ some one)
    × (get "max_completion_tokens" r ≡ some one)
    × IsAtMostOne (get "min_tokens" r)
    × (get "stream" r ≡ some (boolean false))
    × (get "stream_options" r ≡ none)
prepare_prefill_request_chat_example =
    prepare_prefill_request_chat chat_fields "/v1/chat/completions" refl refl

prepare_prefill_request_panics_example :
    prepare_prefill_request (boolean true) "/v1/completions" ≡ panic
prepare_prefill_request_panics_example =
    prepare_prefill_request_panics (boolean true) "/v1/completions" refl refl (λ fields e. cc)
      (λ e. cc)
