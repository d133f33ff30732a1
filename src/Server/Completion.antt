-- ===== src/Server/Completion.antt =====
-- AppState::finish_request, record_request and their prefill and decode variants.
use tokendog.Base.{ℕ, Option, none, some, true, false, Outcome, ret, ◌>>=◌}
use tokendog.Base.Env.{Env}
use tokendog.Policies.{RequestContext, LoadBalancer}
use tokendog.Server.{AppState}

module _ {S : Type 0} where
  -- `if let Some(policy) = …`: an absent policy is not notified.
  abbrev pub notify : (S → Outcome S) → Option S → Outcome (Option S)
  notify tell none = ret none
  notify tell (some policy) = do next ← tell policy; ret (some next)

  abbrev pub note : (S → S) → Option S → Option S
  note tell none = none
  note tell (some policy) = some (tell policy)

module _ {S : Type 0} (lb : LoadBalancer S) where
  unfoldable pub finish_request : AppState S → ℕ → Outcome (AppState S)
  finish_request self worker_idx = elim self.k8s_mode [
    | true ↦ do
      next ← notify (λ p. lb.on_request_end p worker_idx) self.k8s_balancer
      ret (record self { k8s_balancer = next })
    | false ↦ do
      next ← lb.on_request_end self.balancer worker_idx
      ret (record self { balancer = next })
  ]

  unfoldable pub finish_prefill_request : AppState S → ℕ → Outcome (AppState S)
  finish_prefill_request self worker_idx = elim self.k8s_mode [
    | true ↦ do
      next ← notify (λ p. lb.on_request_end p worker_idx) self.k8s_prefill_balancer
      ret (record self { k8s_prefill_balancer = next })
    | false ↦ do
      next ← notify (λ p. lb.on_request_end p worker_idx) self.prefill_policy
      ret (record self { prefill_policy = next })
  ]

  unfoldable pub finish_decode_request : AppState S → ℕ → Outcome (AppState S)
  finish_decode_request self worker_idx = elim self.k8s_mode [
    | true ↦ do
      next ← notify (λ p. lb.on_request_end p worker_idx) self.k8s_decode_balancer
      ret (record self { k8s_decode_balancer = next })
    | false ↦ do
      next ← notify (λ p. lb.on_request_end p worker_idx) self.decode_policy
      ret (record self { decode_policy = next })
  ]

  unfoldable pub record_request : Env → AppState S → RequestContext → ℕ → AppState S
  record_request env self ctx worker_idx =
      let tell : S → S = λ p. lb.record_routing env p ctx worker_idx in
      elim self.k8s_mode [
        | true ↦ record self { k8s_balancer = note tell self.k8s_balancer }
        | false ↦ record self { balancer = tell self.balancer }
      ]

  unfoldable pub record_prefill_request : Env → AppState S → RequestContext → ℕ → AppState S
  record_prefill_request env self ctx worker_idx =
      let tell : S → S = λ p. lb.record_routing env p ctx worker_idx in
      elim self.k8s_mode [
        | true ↦ record self { k8s_prefill_balancer = note tell self.k8s_prefill_balancer }
        | false ↦ record self { prefill_policy = note tell self.prefill_policy }
      ]

  unfoldable pub record_decode_request : Env → AppState S → RequestContext → ℕ → AppState S
  record_decode_request env self ctx worker_idx =
      let tell : S → S = λ p. lb.record_routing env p ctx worker_idx in
      elim self.k8s_mode [
        | true ↦ record self { k8s_decode_balancer = note tell self.k8s_decode_balancer }
        | false ↦ record self { decode_policy = note tell self.decode_policy }
      ]
