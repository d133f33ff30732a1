-- ===== src/Startup/Outcomes.antt =====
-- Which command lines main.rs starts a router for.
use tokendog.Base.{
  ℕ, ◌<◌, ◌≡◌, refl, sym, ◌∙◌, ◌↔◌, String, List, [], ◌∷◌, Option, none, some, true, false, not,
  ret, Outcome, panic, ◌>>=◌, assert, arith, length, after_ret, Bool-cases, ◌⊎◌, inl, inr,
}
use tokendog.Config.{Config, PdMode, has_k8s_enabled}
use tokendog.Discovery.Pods.{ServiceDiscoveryConfig}
use tokendog.Policies.RoundRobin
use tokendog.Policies.F64.{F64}
use tokendog.Policies.Balancer.{Balancer, cycle, make_policy}
use tokendog.Policies.Balancer.Lawful.{make_policy-Room}
use tokendog.Server.{AppState, new, new_pd, is_empty}
use tokendog.Server.Build.{new_k8s, new_k8s_pd}
use tokendog.Startup.{Built, k8s_state, static_state, build_state}
use tokendog.Startup.Ready.{
  IsReady, new_k8s-IsReady, new_k8s_pd-IsReady, new-IsReady, new_pd-IsReady,
}
use tokendog.Worker.{from_urls}

-- The lists of workers that a mode without Kubernetes needs.
abbrev pub Lists : Config → Option PdMode → Type 0
Lists config none = 0 < length config.worker_urls
Lists config (some mode) = (0 < length config.prefill_urls) × (0 < length config.decode_urls)

assert_listed : (urls : List String) → 0 < length urls → assert (not (is_empty urls)) ≡ ret tt
assert_listed [] h = absurd (ground arith)
assert_listed (u ∷ urls) h = refl

not_listed : (urls : List String) → (0 < length urls → ⊥) → is_empty urls ≡ true
not_listed [] h = refl
not_listed (u ∷ urls) h = absurd (h (ground arith))

listed_of : (urls : List String) → is_empty urls ≡ false → 0 < length urls
listed_of [] h = cc
listed_of (u ∷ urls) h = ground arith

listed_not_empty : (urls : List String) → 0 < length urls → is_empty urls ≡ true → ⊥
listed_not_empty [] h e = ground arith
listed_not_empty (u ∷ urls) h e = cc

new_panics :
    {S : Type 0} (urls : List String) (timeout : ℕ) (made : Outcome S)
    → is_empty urls ≡ true
    → (made >>= λ p.
        ◌>>=◌ {B = AppState S × Option ServiceDiscoveryConfig}
          (new (from_urls urls) timeout p)
          (λ state. ret (state, none)))
      ≡ panic
unfolding new
new_panics [] timeout (ret p) h = refl
new_panics [] timeout panic h = refl
new_panics (u ∷ urls) timeout made h = cc

-- Kubernetes discovery, or the lists of workers that the mode needs.
abbrev pub HasWorkers : Config → Type 0
HasWorkers config = (has_k8s_enabled config ≡ true) ⊎ Lists config config.pd_mode

Lists-cases :
    (config : Config) (pd_mode : Option PdMode) → Lists config pd_mode ⊎ (¬ Lists config pd_mode)
Lists-cases config none = elim (Bool-cases (is_empty config.worker_urls)) [
  | inl empty ↦ inr (λ h. listed_not_empty config.worker_urls h empty)
  | inr listed ↦ inl (listed_of config.worker_urls listed)
]
Lists-cases config (some mode) = elim (Bool-cases (is_empty config.prefill_urls)) [
  | inl empty ↦ inr (λ h. listed_not_empty config.prefill_urls h.0 empty)
  | inr prefill ↦ elim (Bool-cases (is_empty config.decode_urls)) [
    | inl empty ↦ inr (λ h. listed_not_empty config.decode_urls h.1 empty)
    | inr decode ↦ inl (listed_of config.prefill_urls prefill, listed_of config.decode_urls decode)
  ]
]

HasWorkers-cases : (config : Config) → HasWorkers config ⊎ (¬ HasWorkers config)
HasWorkers-cases config = elim (Bool-cases (has_k8s_enabled config)) [
  | inl on ↦ inl (inl on)
  | inr off ↦ elim (Lists-cases config config.pd_mode) [
    | inl listed ↦ inl (inr listed)
    | inr missing ↦ inr (λ h. elim h [ inl on ↦ cc | inr listed ↦ missing listed ])
  ]
]

ret_not_panic {ℓ} : {A : Type ℓ} (a : A) → ret a ≡ panic → ⊥
ret_not_panic a h = cc

module _ (f : F64) where
  Starts : Outcome (Built f) → Type 0
  Starts m =
      (self : AppState (Balancer f)) × (d : Option ServiceDiscoveryConfig) × (m ≡ ret (self, d))
      × IsReady f self

  static_panics :
      (config : Config) (pd_mode : Option PdMode)
      → (Lists config pd_mode → ⊥)
      → static_state f config pd_mode ≡ panic
  unfolding static_state new
  static_panics config none missing =
      new_panics config.worker_urls config.request_timeout_secs
        (make_policy f config.policy (length config.worker_urls))
        (not_listed config.worker_urls missing)
  static_panics config (some mode) missing = elim (Bool-cases (is_empty config.prefill_urls)) [
    | inl empty ↦ rw empty
    | inr listed ↦ rw (
      listed,
      not_listed config.decode_urls (λ d. missing (listed_of config.prefill_urls listed, d)),
    )
  ]

  missing_panics : (config : Config) → ¬ HasWorkers config → build_state f config ≡ panic
  unfolding build_state
  missing_panics config missing = elim (Bool-cases (has_k8s_enabled config)) [
    | inl on ↦ absurd (missing (inl on))
    | inr off ↦ rw off (static_panics config config.pd_mode (λ listed. missing (inr listed)))
  ]

  module _ (nanos : ℕ) (known : f.from_secs_f64 (f.decimal 0 1) ≡ some nanos) where
    k8s_state-Starts :
        (config : Config) (pd_mode : Option PdMode) → Starts (k8s_state f config pd_mode)
    unfolding k8s_state Starts
    k8s_state-Starts config (some mode) =
        let (self, built, ready) =
          new_k8s_pd-IsReady f nanos known mode config.request_timeout_secs config.policy in
        (
          self,
          _,
          after_ret (new_k8s_pd f mode config.request_timeout_secs config.policy [] []) _ built
              refl,
          ready,
        )
    k8s_state-Starts config none =
        let (self, built, ready) =
          new_k8s-IsReady f nanos known config.request_timeout_secs config.policy in
        (
          self,
          _,
          after_ret (new_k8s f config.request_timeout_secs config.policy []) _ built refl,
          ready,
        )

    static_state-Starts :
        (config : Config) (pd_mode : Option PdMode)
        → Lists config pd_mode
        → Starts (static_state f config pd_mode)
    unfolding static_state Starts
    static_state-Starts config none listed =
        let n = length config.worker_urls in
        let (p, made, room) = make_policy-Room f config.policy n nanos listed known in
        let (self, built, ready) =
          new-IsReady f nanos known config.worker_urls config.request_timeout_secs p listed room in
        (
          self,
          _,
          after_ret (make_policy f config.policy n) _ made (
              after_ret (new (from_urls config.worker_urls) config.request_timeout_secs p) _ built
                refl),
          ready,
        )
    static_state-Starts config (some mode) (some_prefill, some_decode) =
        let n = length config.prefill_urls in
        let m = length config.decode_urls in
        let (p, made_p, room_p) = make_policy-Room f config.policy n nanos some_prefill known in
        let (q, made_q, room_q) = make_policy-Room f config.policy m nanos some_decode known in
        let (self, built, ready) =
          new_pd-IsReady f nanos known mode config.prefill_urls config.decode_urls
            config.request_timeout_secs p q some_prefill some_decode room_p room_q in
        (
          self,
          _,
          after_ret (assert (not (is_empty config.prefill_urls))) _
              (assert_listed config.prefill_urls some_prefill)
              (after_ret (assert (not (is_empty config.decode_urls))) _
                (assert_listed config.decode_urls some_decode)
                (after_ret (make_policy f config.policy n) _ made_p (
                  after_ret (make_policy f config.policy m) _ made_q (
                    after_ret
                      (new_pd mode (from_urls config.prefill_urls) (from_urls config.decode_urls)
                        config.request_timeout_secs p q (cycle RoundRobin.new))
                      _ built refl)))),
          ready,
        )

    build_state-Starts : (config : Config) → HasWorkers config → Starts (build_state f config)
    unfolding build_state
    build_state-Starts config enough = elim (Bool-cases (has_k8s_enabled config)) [
      | inl on ↦ rw on (k8s_state-Starts config config.pd_mode)
      | inr off ↦ elim enough [
        | inl on ↦ absurd cc
        | inr listed ↦ rw off (static_state-Starts config config.pd_mode listed)
      ]
    ]

    -- Where `Duration::from_secs_f64(0.0)` is defined, the startup builds a state in which each policy
    -- has room for its pool exactly if it uses Kubernetes discovery or has a worker in each list that
    -- its mode needs; and it panics exactly if it has neither.
    pub build_state-IsReady :
        (config : Config)
        → (((self : AppState (Balancer f)) × (d : Option ServiceDiscoveryConfig) × (build_state f
                  config
                ≡ ret (self, d))
              × IsReady f self)
            ↔ HasWorkers config)
          × ((build_state f config ≡ panic) ↔ ¬ HasWorkers config)
    unfolding Starts
    build_state-IsReady config = (
      (
        λ started. elim (HasWorkers-cases config) [
          | inl enough ↦ enough
          | inr missing ↦
              absurd (
                ret_not_panic (started.0, started.1)
                  (sym started.2 ∙ missing_panics config missing))
        ],
        build_state-Starts config,
      ),
      (
        λ panics enough.
            let (self, d, built, ready) = build_state-Starts config enough in
            ret_not_panic (self, d) (sym built ∙ panics),
        missing_panics config,
      ),
    )
