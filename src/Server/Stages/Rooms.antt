-- ===== src/Server/Stages/Rooms.antt =====
-- Room for the requests of a stage, and that the two stages do not touch each other.
use tokendog.Base.{ℕ, String, ◌≡◌, refl, List, Option, some, length, Bool-cases, inl, inr, sym, ◌∙◌}
use tokendog.Base.Env.{Env}
use tokendog.Policies.{RequestContext, LoadBalancer, IsLawful}
use tokendog.Worker.{Worker}
use tokendog.Server.{AppState}
use tokendog.Server.Stages.{Stage, prefill_stage, decode_stage, IsGiven}

module _ {S : Type 0} {lb : LoadBalancer S} (laws : IsLawful lb) where
  -- Where a pool and a policy serve a stage, the policy has room for the whole pool.
  abbrev pub HasRoom : Stage S → AppState S → Type 0
  HasRoom st self =
      (workers : List Worker) (p : S)
      → st.pool self ≡ some workers
      → st.policy self ≡ some p
      → laws.Room p (length workers)

  pub decode_pool-put_prefill :
      (self : AppState S) (o : Option S)
      → decode_stage.pool (prefill_stage.put self o) ≡ decode_stage.pool self
  decode_pool-put_prefill self o = elim (Bool-cases self.k8s_mode) [
    | inl k8s ↦ rw k8s
    | inr static ↦ rw static
  ]

  pub decode_policy-put_prefill :
      (self : AppState S) (o : Option S)
      → decode_stage.policy (prefill_stage.put self o) ≡ decode_stage.policy self
  decode_policy-put_prefill self o = elim (Bool-cases self.k8s_mode) [
    | inl k8s ↦ rw k8s
    | inr static ↦ rw static
  ]

  pub HasRoom-put_prefill :
      (self : AppState S) (o : Option S)
      → HasRoom decode_stage self
      → HasRoom decode_stage (prefill_stage.put self o)
  HasRoom-put_prefill self o room workers p at_pool at_policy =
      room workers p (sym (decode_pool-put_prefill self o) ∙ at_pool)
        (sym (decode_policy-put_prefill self o) ∙ at_policy)

  pub prefill_policy-put_decode :
      (self : AppState S) (o : Option S)
      → prefill_stage.policy (decode_stage.put self o) ≡ prefill_stage.policy self
  prefill_policy-put_decode self o = elim (Bool-cases self.k8s_mode) [
    | inl k8s ↦ rw k8s
    | inr static ↦ rw static
  ]

  pub prefill_pool-put_decode :
      (self : AppState S) (o : Option S)
      → prefill_stage.pool (decode_stage.put self o) ≡ prefill_stage.pool self
  prefill_pool-put_decode self o = elim (Bool-cases self.k8s_mode) [
    | inl k8s ↦ rw k8s
    | inr static ↦ rw static
  ]

  pub put_prefill-put_decode :
      (self : AppState S) (o p : Option S)
      → prefill_stage.put (decode_stage.put self o) p
        ≡ decode_stage.put (prefill_stage.put self p) o
  put_prefill-put_decode self o p = elim (Bool-cases self.k8s_mode) [
    | inl k8s ↦ rw k8s
    | inr static ↦ rw static
  ]

module _ {S : Type 0} (lb : LoadBalancer S) where
  -- The same selection, seen on another state with the pool and the policy of the stage.
  abbrev pub IsGiven-moved :
      (st : Stage S) (env : Env) (ctx : RequestContext) (a a' t : AppState S) (found : ℕ × String)
      → (g : IsGiven lb st env ctx a t found) → st.pool a' ≡ st.pool a
      → st.policy a' ≡ st.policy a
      → IsGiven lb st env ctx a' (st.put a' (some g.started)) found
  IsGiven-moved st env ctx a a' t found g pool policy = record {
    workers = g.workers;
    before = g.before;
    index = g.index;
    chosen = g.chosen;
    started = g.started;
    served = pool ∙ g.served;
    policy_before = policy ∙ g.policy_before;
    selected = g.selected;
    listed = g.listed;
    counted = g.counted;
    after = refl;
  }

  -- The state after a request that both stages served and finished: each policy is as its selection
  -- left it, with the routing recorded, and nothing else has changed.
  pub record IsSettled (first second : Env) (ctx : RequestContext) (self t : AppState S)
      : Type 0 where
    pub prefill_worker : ℕ × String
    pub after_prefill : AppState S
    pub prefill : IsGiven lb prefill_stage first ctx self after_prefill prefill_worker
    pub decode_worker : ℕ × String
    pub before_decode : AppState S
    pub after_decode : AppState S
    pub decode : IsGiven lb decode_stage second ctx before_decode after_decode decode_worker
    pub same_pool : decode_stage.pool before_decode ≡ decode_stage.pool self
    pub same_policy : decode_stage.policy before_decode ≡ decode_stage.policy self
    pub settled :
        t
        ≡ decode_stage.put
            (prefill_stage.put self
              (some (lb.record_routing first prefill.chosen ctx prefill_worker.0)))
            (some (lb.record_routing second decode.chosen ctx decode_worker.0))
