-- ===== src/Startup/Ready.antt =====
-- What the state that main.rs builds can serve, and when building it panics.
use tokendog.Base.{
  ℕ, ◌<◌, ◌≤◌, ◌≡◌, refl, String, List, [], ◌∷◌, Option, some, true, not, ret, assert, arith,
  length, after_ret, suc, ap,
}
use tokendog.Config.{PdMode, Policy}
use tokendog.Policies.RoundRobin
use tokendog.Policies.F64.{F64}
use tokendog.Policies.Balancer.{
  Balancer, least, two_choices, uniform, cycle, session, prefix, cache, balancer_trait, make_policy,
  make_policy_at_least_one,
}
use tokendog.Policies.Balancer.Room.{Room}
use tokendog.Policies.Balancer.Lawful.{make_policy-Room}
use tokendog.Server.{AppState, new, new_pd, is_empty}
use tokendog.Server.Build.{new_k8s, new_k8s_pd}
use tokendog.Server.Routing.{serving_pool, serving_policy}
use tokendog.Server.Stages.{prefill_stage, decode_stage}
use tokendog.Worker.{Worker, from_urls}

is_empty-from_urls : (urls : List String) → 0 < length urls → not (is_empty (from_urls urls)) ≡ true
is_empty-from_urls [] h = absurd (ground arith)
is_empty-from_urls (u ∷ urls) h = refl

assert-from_urls :
    (urls : List String) → 0 < length urls → assert (not (is_empty (from_urls urls))) ≡ ret tt
assert-from_urls urls h = ap assert (is_empty-from_urls urls h)

length-from_urls : (urls : List String) → length (from_urls urls) ≡ length urls
length-from_urls [] = refl
length-from_urls (u ∷ urls) = ap suc (length-from_urls urls)

module _ (f : F64) where
  -- Where there is a pool and a policy for it, the policy has room for the pool.
  abbrev pub RoomFor : Option (List Worker) → Option (Balancer f) → Type 0
  RoomFor (some workers) (some p) = Room f p (length workers)
  RoomFor _ _ = Unit

  abbrev pub IsReady : AppState (Balancer f) → Type 0
  IsReady self =
      RoomFor (serving_pool self) (serving_policy self)
      × RoomFor (prefill_stage.pool self) (prefill_stage.policy self)
      × RoomFor (decode_stage.pool self) (decode_stage.policy self)

  smaller : (p : Balancer f) (n m : ℕ) → m ≤ n → Room f p n → Room f p m
  smaller (least p) n m le (enough, words) = (omega arith, words)
  smaller (two_choices p) n m le (enough, words) = (omega arith, words)
  smaller (prefix p) n m le (enough, words) = (omega arith, words)
  smaller (cache p) n m le (enough, words) = (omega arith, words)
  smaller uniform n m le room = tt
  smaller (cycle p) n m le room = tt
  smaller session n m le room = tt

  module _ (nanos : ℕ) (known : f.from_secs_f64 (f.decimal 0 1) ≡ some nanos) where
    pub new_k8s_pd-IsReady :
        (mode : PdMode) (timeout : ℕ) (policy : Policy)
        → (self : AppState (Balancer f)) × (new_k8s_pd f mode timeout policy [] [] ≡ ret self)
          × IsReady self
    unfolding new_k8s_pd make_policy_at_least_one
    new_k8s_pd-IsReady mode timeout policy =
        let (p, made, room) = make_policy-Room f policy 256 nanos (omega arith) known in
        (
          _,
          after_ret (make_policy f policy 256) _ made
              (after_ret (make_policy f policy 256) _ made refl),
          (tt, smaller p 256 0 (omega arith) room, smaller p 256 0 (omega arith) room),
        )

    pub new_k8s-IsReady :
        (timeout : ℕ) (policy : Policy)
        → (self : AppState (Balancer f)) × (new_k8s f timeout policy [] ≡ ret self) × IsReady self
    unfolding new_k8s make_policy_at_least_one
    new_k8s-IsReady timeout policy =
        let (p, made, room) = make_policy-Room f policy 256 nanos (omega arith) known in
        let (q, made1, room1) = make_policy-Room f policy 1 nanos (omega arith) known in
        (
          _,
          after_ret (make_policy f policy 1) _ made1
              (after_ret (make_policy f policy 256) _ made refl),
          (smaller p 256 0 (omega arith) room, tt, tt),
        )

    pub new_pd-IsReady :
        (mode : PdMode) (prefill decode : List String) (timeout : ℕ) (p q : Balancer f)
        → 0 < length prefill
        → 0 < length decode
        → Room f p (length prefill)
        → Room f q (length decode)
        → (self : AppState (Balancer f)) × (new_pd mode
              (from_urls prefill)
              (from_urls decode)
              timeout
              p
              q
              (cycle RoundRobin.new)
            ≡ ret self)
          × IsReady self
    unfolding new_pd
    new_pd-IsReady mode prefill decode timeout p q some_prefill some_decode room_p room_d = (
      _,
      after_ret (assert (not (is_empty (from_urls prefill)))) _
          (assert-from_urls prefill some_prefill)
          (after_ret (assert (not (is_empty (from_urls decode)))) _
            (assert-from_urls decode some_decode) refl),
      (tt, rw (length-from_urls prefill) room_p, rw (length-from_urls decode) room_d),
    )

    pub new-IsReady :
        (urls : List String) (timeout : ℕ) (p : Balancer f)
        → 0 < length urls
        → Room f p (length urls)
        → (self : AppState (Balancer f)) × (new (from_urls urls) timeout p ≡ ret self)
          × IsReady self
    unfolding new
    new-IsReady urls timeout p some_urls room = (
      _,
      after_ret (assert (not (is_empty (from_urls urls)))) _ (assert-from_urls urls some_urls) refl,
      (rw (length-from_urls urls) room, tt, tt),
    )
