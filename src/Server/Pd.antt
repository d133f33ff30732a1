-- ===== src/Server/Pd.antt =====
-- AppState::next_prefill_worker and next_decode_worker.
use tokendog.Base.{ℕ, String, List, Option, some, true, false, Outcome, ret, ◌>>=◌}
use tokendog.Base.Env.{Env}
use tokendog.Policies.{RequestContext, LoadBalancer}
use tokendog.Server.{AppState, pick_from}

module _ {S : Type 0} (lb : LoadBalancer S) where
  unfoldable pub next_prefill_worker :
      Env → AppState S → RequestContext → Outcome (Option (ℕ × String) × AppState S)
  unfolding pick_from
  next_prefill_worker env self ctx =
      let choose : S → List String → Outcome (ℕ × S) =
        λ p urls. lb.select_with_context env p urls ctx in
      elim self.k8s_mode [
        | true ↦ do
          (found, next) ← pick_from lb choose self.k8s_prefill_pool self.k8s_prefill_balancer
          ret (found, record self { k8s_prefill_balancer = next })
        | false ↦ do
          (found, next) ← pick_from lb choose (some self.prefill_workers) self.prefill_policy
          ret (found, record self { prefill_policy = next })
      ]

  unfoldable pub next_decode_worker :
      Env → AppState S → RequestContext → Outcome (Option (ℕ × String) × AppState S)
  unfolding pick_from
  next_decode_worker env self ctx =
      let choose : S → List String → Outcome (ℕ × S) =
        λ p urls. lb.select_with_context env p urls ctx in
      elim self.k8s_mode [
        | true ↦ do
          (found, next) ← pick_from lb choose self.k8s_decode_pool self.k8s_decode_balancer
          ret (found, record self { k8s_decode_balancer = next })
        | false ↦ do
          (found, next) ← pick_from lb choose (some self.decode_workers) self.decode_policy
          ret (found, record self { decode_policy = next })
      ]
