-- ===== src/Server/Stages.antt =====
-- The prefill and the decode stage of AppState: the pool and the policy of a stage in either mode, and
-- what one request does to them.
pub mod Requests
pub mod Rooms
pub mod Both
use tokendog.Base.{
  ℕ, ◌<◌, ◌≡◌, refl, sym, ap, ◌∙◌, String, List, Option, none, some, Bool, true, false, Outcome,
  ret, panic, ◌>>=◌, length, get_elem?, map, if◌then◌else◌, Bool-cases, inl, inr, >>=-eq-ret,
  >>=-ret,
}
use tokendog.Base.Env.{Env}
use tokendog.Policies.{RequestContext, LoadBalancer, IsLawful}
use tokendog.Worker.{Worker, healthy_worker_urls}
use tokendog.Worker.Health.{healthy_worker_urls-IsListed}
use tokendog.Server.{AppState, pick, pick_from}
use tokendog.Server.Pd.{next_prefill_worker, next_decode_worker}
use tokendog.Server.Completion.{
  notify, note, finish_prefill_request, finish_decode_request, record_prefill_request,
  record_decode_request,
}
use tokendog.Server.Routing.{choose_for, pick-IsPicked}

pub record Stage (S : Type 0) : Type 0 where
  pub pool : AppState S → Option (List Worker)
  pub policy : AppState S → Option S
  pub put : AppState S → Option S → AppState S

module _ {S : Type 0} where
  abbrev pub prefill_stage : Stage S
  prefill_stage = record {
    pool = λ self. if self.k8s_mode then self.k8s_prefill_pool else some self.prefill_workers;
    policy = λ self. if self.k8s_mode then self.k8s_prefill_balancer else self.prefill_policy;
    put = λ self next.
        if self.k8s_mode
        then record self { k8s_prefill_balancer = next }
        else record self { prefill_policy = next };
  }

  abbrev pub decode_stage : Stage S
  decode_stage = record {
    pool = λ self. if self.k8s_mode then self.k8s_decode_pool else some self.decode_workers;
    policy = λ self. if self.k8s_mode then self.k8s_decode_balancer else self.decode_policy;
    put = λ self next.
        if self.k8s_mode
        then record self { k8s_decode_balancer = next }
        else record self { decode_policy = next };
  }

module _ {S : Type 0} (lb : LoadBalancer S) where
  -- The three methods of a stage work on its pool and its policy.
  pub record IsStage (st : Stage S)
      (next : Env → AppState S → RequestContext → Outcome (Option (ℕ × String) × AppState S))
      (finish : AppState S → ℕ → Outcome (AppState S))
      (note_routing : Env → AppState S → RequestContext → ℕ → AppState S) : Type 0 where
    pub next_lem :
        (env : Env) (self : AppState S) (ctx : RequestContext)
        → next env self ctx ≡ (
            pick_from lb (choose_for lb env ctx) (st.pool self) (st.policy self) >>= λ r.
            ret (r.0, st.put self r.1))
    pub finish_lem :
        (self : AppState S) (i : ℕ)
        → finish self i
          ≡ (notify (λ p. lb.on_request_end p i) (st.policy self) >>= λ p. ret (st.put self p))
    pub note_lem :
        (env : Env) (self : AppState S) (ctx : RequestContext) (i : ℕ)
        → note_routing env self ctx i
          ≡ st.put self (note (λ p. lb.record_routing env p ctx i) (st.policy self))
    pub policy-put : (self : AppState S) (p : S) → st.policy (st.put self (some p)) ≡ some p
    pub put-put :
        (self : AppState S) (p q : S)
        → st.put (st.put self (some p)) (some q) ≡ st.put self (some q)

  pub prefill_IsStage :
      IsStage prefill_stage
        (next_prefill_worker lb)
        (finish_prefill_request lb)
        (record_prefill_request lb)
  unfolding next_prefill_worker finish_prefill_request record_prefill_request
  prefill_IsStage = record {
    next_lem = λ env self ctx. elim (Bool-cases self.k8s_mode) [
      | inl k8s ↦ rw k8s
      | inr static ↦ rw static
    ];
    finish_lem =
        λ self i. elim (Bool-cases self.k8s_mode) [ inl k8s ↦ rw k8s | inr static ↦ rw static ];
    note_lem = λ env self ctx i. elim (Bool-cases self.k8s_mode) [
      | inl k8s ↦ rw k8s
      | inr static ↦ rw static
    ];
    policy-put =
        λ self p. elim (Bool-cases self.k8s_mode) [ inl k8s ↦ rw k8s | inr static ↦ rw static ];
    put-put =
        λ self p q. elim (Bool-cases self.k8s_mode) [ inl k8s ↦ rw k8s | inr static ↦ rw static ];
  }

  pub decode_IsStage :
      IsStage decode_stage
        (next_decode_worker lb)
        (finish_decode_request lb)
        (record_decode_request lb)
  unfolding next_decode_worker finish_decode_request record_decode_request
  decode_IsStage = record {
    next_lem = λ env self ctx. elim (Bool-cases self.k8s_mode) [
      | inl k8s ↦ rw k8s
      | inr static ↦ rw static
    ];
    finish_lem =
        λ self i. elim (Bool-cases self.k8s_mode) [ inl k8s ↦ rw k8s | inr static ↦ rw static ];
    note_lem = λ env self ctx i. elim (Bool-cases self.k8s_mode) [
      | inl k8s ↦ rw k8s
      | inr static ↦ rw static
    ];
    policy-put =
        λ self p. elim (Bool-cases self.k8s_mode) [ inl k8s ↦ rw k8s | inr static ↦ rw static ];
    put-put =
        λ self p q. elim (Bool-cases self.k8s_mode) [ inl k8s ↦ rw k8s | inr static ↦ rw static ];
  }

  -- What a selection that found the worker `found` of a stage went through.
  pub record IsGiven (st : Stage S) (env : Env) (ctx : RequestContext) (self t : AppState S)
      (found : ℕ × String) : Type 0 where
    pub workers : List Worker
    pub before : S
    pub index : ℕ
    pub chosen : S
    pub started : S
    pub served : st.pool self ≡ some workers
    pub policy_before : st.policy self ≡ some before
    pub selected :
        choose_for lb env ctx before (map (λ w. w.1) (healthy_worker_urls workers))
        ≡ ret (index, chosen)
    pub listed : get_elem? (healthy_worker_urls workers) index ≡ some found
    pub counted : lb.on_request_start chosen found.0 ≡ ret started
    pub after : t ≡ st.put self (some started)
