-- ===== src/Running/Routes.antt =====
-- The three ways of a request through AppState, with the methods of each.
use tokendog.Base.{ℕ, String, Option, Outcome}
use tokendog.Base.Env.{Env}
use tokendog.Policies.{RequestContext, LoadBalancer}
use tokendog.Server.{AppState, next_worker_with_context}
use tokendog.Server.Pd.{next_prefill_worker, next_decode_worker}
use tokendog.Server.Completion.{
  finish_request, finish_prefill_request, finish_decode_request, record_request,
  record_prefill_request, record_decode_request,
}

-- The three ways a request takes through AppState.
pub data Route : Type 0 where
  regular prefill decode : Route

module _ {S : Type 0} (lb : LoadBalancer S) where
  abbrev pub next_on :
      Route → Env → AppState S → RequestContext → Outcome (Option (ℕ × String) × AppState S)
  next_on regular = next_worker_with_context lb
  next_on prefill = next_prefill_worker lb
  next_on decode = next_decode_worker lb

  abbrev pub finish_on : Route → AppState S → ℕ → Outcome (AppState S)
  finish_on regular = finish_request lb
  finish_on prefill = finish_prefill_request lb
  finish_on decode = finish_decode_request lb

  abbrev pub record_on : Route → Env → AppState S → RequestContext → ℕ → AppState S
  record_on regular = record_request lb
  record_on prefill = record_prefill_request lb
  record_on decode = record_decode_request lb
