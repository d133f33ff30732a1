-- ===== src/Running/Steps.antt =====
-- The state of server.rs with the requests in flight, and the calls that the handlers, the health
-- checks and the service discovery make on it, in any order.
use tokendog.Base.{ℕ, ◌≡◌, ◌≤◌, ◌<◌, String, List, ◌∷◌, ◌++◌, Option, none, some, true, ret, length}
use tokendog.Base.Env.{Env}
use tokendog.Policies.{RequestContext, LoadBalancer}
use tokendog.Running.Routes.{Route, regular, prefill, decode, next_on, finish_on, record_on}
use tokendog.Running.Stages.{stage}
use tokendog.Server.{AppState}
use tokendog.Server.Routing.{choose_for}
use tokendog.Startup.{health_round}
use tokendog.Worker.{Worker}

-- The state, and for each request in flight its route and the index of its worker.
pub record Running (S : Type 0) : Type 0 where
  pub state : AppState S
  pub in_flight : List (Route × ℕ)

-- A pool has at most `n` workers.
abbrev pub Fits : ℕ → Option (List Worker) → Type 0
Fits n none = Unit
Fits n (some workers) = length workers ≤ n

-- The writes of the service discovery to the three pools.
abbrev pub with_pools :
    {S : Type 0}
    → AppState S
    → Option (List Worker)
    → Option (List Worker)
    → Option (List Worker)
    → AppState S
with_pools self workers prefill_pool decode_pool = record self {
  k8s_workers_pool = workers;
  k8s_prefill_pool = prefill_pool;
  k8s_decode_pool = decode_pool;
}

-- One call. The discovery leaves at most `capacity r` workers in the pool of a route.
pub data Step {S : Type 0} (lb : LoadBalancer S) (capacity : Route → ℕ) (a b : Running S)
    : Type 0 where
  given :
      (r : Route) (env : Env) (ctx : RequestContext) (i : ℕ) (url : String)
      → next_on lb r env a.state ctx ≡ ret (some (i, url), b.state)
      → b.in_flight ≡ (r, i) ∷ a.in_flight
      → Step lb capacity a b
  -- The same call in two steps, between which others may come.
  selected :
      (r : Route) (env : Env) (ctx : RequestContext) (urls : List String) (k : ℕ) (p chosen : S)
      → (stage r).policy a.state ≡ some p
      → choose_for lb env ctx p urls ≡ ret (k, chosen)
      → b.state ≡ (stage r).put a.state (some chosen)
      → b.in_flight ≡ a.in_flight
      → Step lb capacity a b
  started :
      (r : Route) (i : ℕ) (p next : S)
      → (stage r).policy a.state ≡ some p
      → i < capacity r
      → lb.on_request_start p i ≡ ret next
      → b.state ≡ (stage r).put a.state (some next)
      → b.in_flight ≡ (r, i) ∷ a.in_flight
      → Step lb capacity a b
  refused :
      (r : Route) (env : Env) (ctx : RequestContext)
      → next_on lb r env a.state ctx ≡ ret (none, b.state)
      → b.in_flight ≡ a.in_flight
      → Step lb capacity a b
  recorded :
      (r : Route) (env : Env) (ctx : RequestContext) (i : ℕ)
      → b.state ≡ record_on lb r env a.state ctx i
      → b.in_flight ≡ a.in_flight
      → Step lb capacity a b
  finished :
      (r : Route) (i : ℕ) (before after : List (Route × ℕ))
      → a.in_flight ≡ before ++ (r, i) ∷ after
      → finish_on lb r a.state i ≡ ret b.state
      → b.in_flight ≡ before ++ after
      → Step lb capacity a b
  -- What the HTTP client answers may differ from round to round.
  probed :
      (get : String → Option ℕ)
      → b.state ≡ health_round get a.state
      → b.in_flight ≡ a.in_flight
      → Step lb capacity a b
  discovered :
      (workers prefill_pool decode_pool : Option (List Worker))
      → a.state.k8s_mode ≡ true
      → Fits (capacity regular) workers
      → Fits (capacity prefill) prefill_pool
      → Fits (capacity decode) decode_pool
      → b.state ≡ with_pools a.state workers prefill_pool decode_pool
      → b.in_flight ≡ a.in_flight
      → Step lb capacity a b

pub data Reach {S : Type 0} (lb : LoadBalancer S) (capacity : Route → ℕ) (a : Running S)
    : Running S → Type 0 where
  here : Reach lb capacity a a
  later : {b c : Running S} → Reach lb capacity a b → Step lb capacity b c → Reach lb capacity a c
