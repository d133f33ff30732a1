-- ===== src/Server/Stages/Requests.antt =====
-- One request on a stage: the worker it is given, its end, and the record of its routing.
use tokendog.Base.{
  ℕ, ◌≡◌, refl, sym, ap, ◌∙◌, String, List, Option, none, some, Outcome, ret, length, map,
  >>=-eq-ret,
}
use tokendog.Base.Env.{Env}
use tokendog.Policies.{RequestContext, LoadBalancer, IsLawful}
use tokendog.Worker.{Worker, healthy_worker_urls}
use tokendog.Server.{AppState, pick, pick_from}
use tokendog.Server.Routing.{choose_for, pick-IsPicked}
use tokendog.Server.Stages.{Stage, IsStage, IsGiven}

module _ {S : Type 0} (lb : LoadBalancer S) where
  pick_from-found :
      (choose : S → List String → Outcome (ℕ × S)) (pool : Option (List Worker))
      (policy o : Option S) (found : ℕ × String)
      → pick_from lb choose pool policy ≡ ret (some found, o)
      → (workers : List Worker) × (p : S) × (next : S) × (pool ≡ some workers)
        × (policy ≡ some p)
        × (o ≡ some next)
        × (pick lb choose (healthy_worker_urls workers) p ≡ ret (some found, next))
  unfolding pick_from
  pick_from-found choose none policy o found e = cc
  pick_from-found choose (some workers) none o found e = cc
  pick_from-found choose (some workers) (some p) o found e =
      let (r, picked, same) = >>=-eq-ret (pick lb choose (healthy_worker_urls workers) p) _ e in
      parts r picked same
    where
      parts :
          (r : Option (ℕ × String) × S)
          → pick lb choose (healthy_worker_urls workers) p ≡ ret r
          → ◌≡◌ {A = Outcome (Option (ℕ × String) × Option S)}
              (ret (r.0, some r.1))
              (ret (some found, o))
          → (workers' : List Worker) × (p' : S) × (next : S) × (◌≡◌ {A = Option (List Worker)}
              (some workers)
              (some workers'))
            × (◌≡◌ {A = Option S} (some p) (some p'))
            × (o ≡ some next)
            × (pick lb choose (healthy_worker_urls workers') p' ≡ ret (some found, next))
      parts (f, next) picked same =
          let same_found : f ≡ some found = cc in
          let same_policy : o ≡ some next = cc in
          (workers, p, next, refl, refl, same_policy, picked ∙ ap (λ x. ret (x, next)) same_found)

  module _ (st : Stage S)
      (next : Env → AppState S → RequestContext → Outcome (Option (ℕ × String) × AppState S))
      (finish : AppState S → ℕ → Outcome (AppState S))
      (note_routing : Env → AppState S → RequestContext → ℕ → AppState S)
      (is : IsStage lb st next finish note_routing) where
    pub next-IsGiven :
        (env : Env) (self t : AppState S) (ctx : RequestContext) (found : ℕ × String)
        → next env self ctx ≡ ret (some found, t)
        → IsGiven lb st env ctx self t found
    next-IsGiven env self t ctx found e =
        let (r, picked, same) =
          >>=-eq-ret (pick_from lb (choose_for lb env ctx) (st.pool self) (st.policy self)) _
            (sym (is.next_lem env self ctx) ∙ e) in
        parts r picked same
      where
        parts :
            (r : Option (ℕ × String) × Option S)
            → pick_from lb (choose_for lb env ctx) (st.pool self) (st.policy self) ≡ ret r
            → ◌≡◌ {A = Outcome (Option (ℕ × String) × AppState S)}
                (ret (r.0, st.put self r.1))
                (ret (some found, t))
            → IsGiven lb st env ctx self t found
        parts (f, o) picked same =
            let same_found : f ≡ some found = cc in
            let same_state : t ≡ st.put self o = cc in
            let (workers, p, started, at_pool, at_policy, at_o, run) =
              pick_from-found (choose_for lb env ctx) (st.pool self) (st.policy self) o found
                (picked ∙ ap (λ x. ret (x, o)) same_found) in
            let q =
              pick-IsPicked lb (choose_for lb env ctx) (healthy_worker_urls workers) p started found
                run in
            record {
              workers = workers;
              before = p;
              index = q.index;
              chosen = q.chosen;
              started = started;
              served = at_pool;
              policy_before = at_policy;
              selected = q.selected;
              listed = q.listed;
              counted = q.started;
              after = same_state ∙ ap (st.put self) at_o;
            }

    pub note_put :
        (env : Env) (self : AppState S) (p : S) (ctx : RequestContext) (i : ℕ)
        → note_routing env (st.put self (some p)) ctx i
          ≡ st.put self (some (lb.record_routing env p ctx i))
    note_put env self p ctx i =
        is.note_lem env (st.put self (some p)) ctx i
        ∙ rw (is.policy-put self p) (is.put-put self p (lb.record_routing env p ctx i))

    module _ (laws : IsLawful lb) where
      -- The end of a request that a stage was given leaves the policy as the selection left it.
      pub finish_given :
          (env : Env) (self t : AppState S) (ctx : RequestContext) (found : ℕ × String)
          → (g : IsGiven lb st env ctx self t found) → laws.Room g.before (length g.workers)
          → finish t found.0 ≡ ret (st.put self (some g.chosen))
      finish_given env self t ctx found g room =
          let urls = map (λ (w : ℕ × String). w.1) (healthy_worker_urls g.workers) in
          let room' =
            laws.select_with_context_keeps env g.before g.chosen urls ctx g.index (length g.workers)
              g.selected room in
          let ended =
            laws.end_after_start g.chosen g.started found.0 (length g.workers) room' g.counted in
          ap (λ s. finish s found.0) g.after
          ∙ (is.finish_lem (st.put self (some g.started)) found.0
              ∙ rw (is.policy-put self g.started)
                  (rw ended (ap ret (is.put-put self g.started g.chosen))))
