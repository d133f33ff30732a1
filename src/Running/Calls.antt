-- ===== src/Running/Calls.antt =====
-- What the calls of AppState do to the policy of their route.
use tokendog.Base.{
  ℕ, ◌≡◌, refl, sym, ap, ◌∙◌, String, List, Option, none, some, Outcome, ret, >>=-eq-ret,
}
use tokendog.Base.Env.{Env}
use tokendog.Policies.{RequestContext, LoadBalancer}
use tokendog.Server.{AppState, pick, pick_from}
use tokendog.Server.Routing.{choose_for, pick-none}
use tokendog.Running.Routes.{Route, next_on, finish_on, record_on}
use tokendog.Running.Stages.{stage, stage-IsStage, put-policy}
use tokendog.Worker.{Worker, healthy_worker_urls}

module _ {S : Type 0} (lb : LoadBalancer S) where
  pick-none_same :
      (choose : S → List String → Outcome (ℕ × S)) (healthy : List (ℕ × String)) (policy next : S)
      → pick lb choose healthy policy ≡ ret (none, next)
      → next ≡ policy
  unfolding pick
  pick-none_same choose healthy policy next e =
      let empty = pick-none lb choose healthy policy next e in
      let run : ◌≡◌ {A = Outcome (Option (ℕ × String) × S)} (ret (none, policy))
          (ret (none, next)) =
        rw empty at e in
      cc

  pick_from-none_same :
      (choose : S → List String → Outcome (ℕ × S)) (pool : Option (List Worker))
      (policy o : Option S)
      → pick_from lb choose pool policy ≡ ret (none, o)
      → o ≡ policy
  unfolding pick_from
  pick_from-none_same choose none policy o e = cc
  pick_from-none_same choose (some workers) none o e = cc
  pick_from-none_same choose (some workers) (some p) o e =
      let ((found, next), picked, last) =
        >>=-eq-ret (pick lb choose (healthy_worker_urls workers) p) _ e in
      let same_found : found ≡ none = cc in
      let same_o : o ≡ some next = cc in
      same_o
      ∙ ap some (
          pick-none_same choose (healthy_worker_urls workers) p next
            (picked ∙ ap (λ x. ret (x, next)) same_found))

  -- A refusal leaves the state as it is.
  pub next_on-none :
      (r : Route) (env : Env) (self t : AppState S) (ctx : RequestContext)
      → next_on lb r env self ctx ≡ ret (none, t)
      → t ≡ self
  next_on-none r env self t ctx e =
      let ((found, o), picked, last) =
        >>=-eq-ret
          (pick_from lb (choose_for lb env ctx) ((stage r).pool self) ((stage r).policy self)) _
          (sym ((stage-IsStage lb r).next_lem env self ctx) ∙ e) in
      let same_found : found ≡ none = cc in
      let same_t : t ≡ (stage r).put self o = cc in
      let same_o =
        pick_from-none_same (choose_for lb env ctx) ((stage r).pool self) ((stage r).policy self) o
          (picked ∙ ap (λ x. ret (x, o)) same_found) in
      same_t ∙ (ap ((stage r).put self) same_o ∙ put-policy r self)

  pub finish_on-some :
      (r : Route) (self : AppState S) (i : ℕ) (p next : S)
      → (stage r).policy self ≡ some p
      → lb.on_request_end p i ≡ ret next
      → finish_on lb r self i ≡ ret ((stage r).put self (some next))
  finish_on-some r self i p next at ended =
      (stage-IsStage lb r).finish_lem self i ∙ rw at (rw ended refl)

  pub finish_on-none :
      (r : Route) (self : AppState S) (i : ℕ)
      → (stage r).policy self ≡ none
      → finish_on lb r self i ≡ ret self
  finish_on-none r self i at =
      (stage-IsStage lb r).finish_lem self i
      ∙ rw at (ap ret (ap ((stage r).put self) (sym at) ∙ put-policy r self))

  pub record_on-some :
      (r : Route) (env : Env) (self : AppState S) (ctx : RequestContext) (i : ℕ) (p : S)
      → (stage r).policy self ≡ some p
      → record_on lb r env self ctx i ≡ (stage r).put self (some (lb.record_routing env p ctx i))
  record_on-some r env self ctx i p at = (stage-IsStage lb r).note_lem env self ctx i ∙ rw at refl

  pub record_on-none :
      (r : Route) (env : Env) (self : AppState S) (ctx : RequestContext) (i : ℕ)
      → (stage r).policy self ≡ none
      → record_on lb r env self ctx i ≡ self
  record_on-none r env self ctx i at =
      (stage-IsStage lb r).note_lem env self ctx i
      ∙ rw at (ap ((stage r).put self) (sym at) ∙ put-policy r self)
