-- ===== src/Policies.antt =====
-- crates/router/src/policies: the request context, the stable hash and the LoadBalancer trait.
-- The policies are the children; `Active` is the vector of in-flight counters they share.
pub mod Active
pub mod Shortest
pub mod RoundRobin
pub mod Random
pub mod LeastLoaded
pub mod PowerOfTwo
pub mod SessionAffinity
pub mod PrefixAffinity
pub mod Hash
pub mod F64
pub mod LoadCacheAware
pub mod Balancer
use tokendog.Base.{ℕ, ◌<◌, ◌≡◌, String, List, Outcome, ret, length}
use tokendog.Base.Env.{Env}

-- The fields of a request that a policy routes by.
pub record RequestContext : Type 0 where
  pub session_id : String
  pub prefix_key : String

-- The trait: a policy of type `S`. A method that takes `&self` and writes an atomic or a locked map
-- returns the new policy. (`record` is a reserved word, so that method is `record_routing`.)
pub record LoadBalancer (S : Type 0) : Type 0 where
  pub select : Env → S → List String → Outcome (ℕ × S)
  pub select_with_context : Env → S → List String → RequestContext → Outcome (ℕ × S)
  pub on_request_start : S → ℕ → Outcome S
  pub on_request_end : S → ℕ → Outcome S
  pub record_routing : Env → S → RequestContext → ℕ → S

-- What a client of the trait relies on. `Room s n` says that `s` can count requests on `n` workers.
pub record IsLawful {S : Type 0} (lb : LoadBalancer S) : Type 1 where
  pub Room : S → ℕ → Type 0
  pub select_lt :
      (env : Env) (s t : S) (ws : List String) (i : ℕ)
      → lb.select env s ws ≡ ret (i, t)
      → i < length ws
  pub select_with_context_lt :
      (env : Env) (s t : S) (ws : List String) (ctx : RequestContext) (i : ℕ)
      → lb.select_with_context env s ws ctx ≡ ret (i, t)
      → i < length ws
  pub select_keeps :
      (env : Env) (s t : S) (ws : List String) (i n : ℕ)
      → lb.select env s ws ≡ ret (i, t)
      → Room s n
      → Room t n
  pub select_with_context_keeps :
      (env : Env) (s t : S) (ws : List String) (ctx : RequestContext) (i n : ℕ)
      → lb.select_with_context env s ws ctx ≡ ret (i, t)
      → Room s n
      → Room t n
  pub start_fits :
      (s : S) (i n : ℕ) → Room s n → i < n → (t : S) × (lb.on_request_start s i ≡ ret t) × Room t n
  pub end_fits :
      (s : S) (i n : ℕ) → Room s n → i < n → (t : S) × (lb.on_request_end s i ≡ ret t) × Room t n
  pub end_after_start :
      (s t : S) (i n : ℕ)
      → Room s n
      → lb.on_request_start s i ≡ ret t
      → lb.on_request_end t i ≡ ret s
  pub end_after_record :
      (env : Env) (s t : S) (ctx : RequestContext) (i n : ℕ)
      → Room s n
      → lb.on_request_start s i ≡ ret t
      → lb.on_request_end (lb.record_routing env t ctx i) i ≡ ret (lb.record_routing env s ctx i)
  pub record_keeps :
      (env : Env) (s : S) (ctx : RequestContext) (i n : ℕ)
      → Room s n
      → Room (lb.record_routing env s ctx i) n
