-- ===== src/Running/Stages.antt =====
-- The pool and the policy of each route, and that the routes do not touch each other.
use tokendog.Base.{
  ◌≡◌, ◌≢◌, refl, Option, none, some, Bool, true, false, Bool-cases, inl, inr, if◌then◌else◌,
  >>=-assoc, sym,
}
use tokendog.Policies.{LoadBalancer}
use tokendog.Server.{AppState, pick, pick_from, next_worker_with_context}
use tokendog.Server.Completion.{finish_request, record_request}
use tokendog.Server.Routing.{serving_pool, serving_policy, choose_for}
use tokendog.Worker.{healthy_worker_urls}
use tokendog.Server.Stages.{
  Stage, prefill_stage, decode_stage, IsStage, prefill_IsStage, decode_IsStage,
}
use tokendog.Running.Routes.{Route, regular, prefill, decode, next_on, finish_on, record_on}

module _ {S : Type 0} where
  abbrev put_balancer : AppState S → Option S → AppState S
  put_balancer self none = self
  put_balancer self (some next) = record self { balancer = next }

  abbrev pub serving_stage : Stage S
  serving_stage = record {
    pool = serving_pool;
    policy = serving_policy;
    put = λ self next.
        if self.k8s_mode then record self { k8s_balancer = next } else put_balancer self next;
  }

  abbrev pub stage : Route → Stage S
  stage regular = serving_stage
  stage prefill = prefill_stage
  stage decode = decode_stage

  -- An observation that both branches leave as it is.
  unseen :
      {B : Type 0} (look : AppState S → B) (b : Bool) (x y : AppState S) {v : B}
      → look x ≡ v
      → look y ≡ v
      → look (if b then x else y) ≡ v
  unseen look true x y e h = e
  unseen look false x y e h = h

  unseen_put :
      {B : Type 0} (look : AppState S → B) (self : AppState S) (o : Option S) {v : B}
      → ((p : S) → look (record self { balancer = p }) ≡ v)
      → look self ≡ v
      → look (put_balancer self o) ≡ v
  unseen_put look self none e h = h
  unseen_put look self (some p) e h = e p

  pub pool-put :
      (q r : Route) (self : AppState S) (o : Option S)
      → (stage q).pool ((stage r).put self o) ≡ (stage q).pool self
  pool-put regular regular self o =
      unseen serving_stage.pool self.k8s_mode _ _ refl
        (unseen_put serving_stage.pool self o (λ p. refl) refl)
  pool-put regular prefill self o = unseen serving_stage.pool self.k8s_mode _ _ refl refl
  pool-put regular decode self o = unseen serving_stage.pool self.k8s_mode _ _ refl refl
  pool-put prefill regular self o =
      unseen prefill_stage.pool self.k8s_mode _ _ refl
        (unseen_put prefill_stage.pool self o (λ p. refl) refl)
  pool-put prefill prefill self o = unseen prefill_stage.pool self.k8s_mode _ _ refl refl
  pool-put prefill decode self o = unseen prefill_stage.pool self.k8s_mode _ _ refl refl
  pool-put decode regular self o =
      unseen decode_stage.pool self.k8s_mode _ _ refl
        (unseen_put decode_stage.pool self o (λ p. refl) refl)
  pool-put decode prefill self o = unseen decode_stage.pool self.k8s_mode _ _ refl refl
  pool-put decode decode self o = unseen decode_stage.pool self.k8s_mode _ _ refl refl

  pub policy-put_other :
      (q r : Route) (self : AppState S) (o : Option S)
      → q ≢ r
      → (stage q).policy ((stage r).put self o) ≡ (stage q).policy self
  policy-put_other regular regular self o ne = absurd (ne refl)
  policy-put_other regular prefill self o ne =
      unseen serving_stage.policy self.k8s_mode _ _ refl refl
  policy-put_other regular decode self o ne =
      unseen serving_stage.policy self.k8s_mode _ _ refl refl
  policy-put_other prefill regular self o ne =
      unseen prefill_stage.policy self.k8s_mode _ _ refl
        (unseen_put prefill_stage.policy self o (λ p. refl) refl)
  policy-put_other prefill prefill self o ne = absurd (ne refl)
  policy-put_other prefill decode self o ne =
      unseen prefill_stage.policy self.k8s_mode _ _ refl refl
  policy-put_other decode regular self o ne =
      unseen decode_stage.policy self.k8s_mode _ _ refl
        (unseen_put decode_stage.policy self o (λ p. refl) refl)
  policy-put_other decode prefill self o ne = unseen decode_stage.policy self.k8s_mode _ _ refl refl
  policy-put_other decode decode self o ne = absurd (ne refl)

  pub put-policy :
      (r : Route) (self : AppState S) → (stage r).put self ((stage r).policy self) ≡ self
  put-policy regular self = elim (Bool-cases self.k8s_mode) [
    | inl k8s ↦ rw k8s
    | inr static ↦ rw static
  ]
  put-policy prefill self = elim (Bool-cases self.k8s_mode) [
    | inl k8s ↦ rw k8s
    | inr static ↦ rw static
  ]
  put-policy decode self = elim (Bool-cases self.k8s_mode) [
    | inl k8s ↦ rw k8s
    | inr static ↦ rw static
  ]

module _ {S : Type 0} (lb : LoadBalancer S) where
  serving_IsStage :
      IsStage lb serving_stage (next_worker_with_context lb) (finish_request lb) (record_request lb)
  unfolding next_worker_with_context finish_request record_request pick_from
  serving_IsStage = record {
    next_lem = λ env self ctx. elim (Bool-cases self.k8s_mode) [
      | inl k8s ↦ rw k8s
      | inr static ↦ rw static (
          sym (
            >>=-assoc
              (pick lb (choose_for lb env ctx) (healthy_worker_urls self.workers) self.balancer) _
              _))
    ];
    finish_lem = λ self i. elim (Bool-cases self.k8s_mode) [
      | inl k8s ↦ rw k8s
      | inr static ↦ rw static (sym (>>=-assoc (lb.on_request_end self.balancer i) _ _))
    ];
    note_lem = λ env self ctx i. elim (Bool-cases self.k8s_mode) [
      | inl k8s ↦ rw k8s
      | inr static ↦ rw static
    ];
    policy-put =
        λ self p. elim (Bool-cases self.k8s_mode) [ inl k8s ↦ rw k8s | inr static ↦ rw static ];
    put-put =
        λ self p q. elim (Bool-cases self.k8s_mode) [ inl k8s ↦ rw k8s | inr static ↦ rw static ];
  }

  pub stage-IsStage :
      (r : Route) → IsStage lb (stage r) (next_on lb r) (finish_on lb r) (record_on lb r)
  stage-IsStage regular = serving_IsStage
  stage-IsStage prefill = prefill_IsStage lb
  stage-IsStage decode = decode_IsStage lb
