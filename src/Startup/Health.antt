-- ===== src/Startup/Health.antt =====
-- What a round of the health checks of main.rs does to the pools that the router serves from.
use Prim.Native.String
use tokendog.Base.{
  ℕ, ◌≡◌, refl, ◌↔◌, String, List, [], ◌∷◌, Option, none, some, true, Bool-cases, inl, inr,
}
use tokendog.Base.Text.{trim_end_matches}
use tokendog.Server.{AppState}
use tokendog.Server.Routing.{serving_pool, serving_policy}
use tokendog.Server.Stages.{prefill_stage, decode_stage}
use tokendog.Startup.{checked, checked_pool, health_round}
use tokendog.Worker.{Worker, run_health_checks}
use tokendog.Worker.Health.{probe_iff}

-- The workers have kept their URLs, and each is healthy exactly when its /health answered 200.
abbrev pub AreProbed : (String → Option ℕ) → List Worker → List Worker → Type 0
AreProbed get [] [] = Unit
AreProbed get (w ∷ before) (v ∷ after) =
    (v.url ≡ w.url)
    × ((v.healthy ≡ true) ↔ (get (String.◌++◌ (trim_end_matches b'/' w.url) "/health") ≡ some 200))
    × AreProbed get before after
AreProbed get _ _ = ⊥

abbrev pub IsProbed : (String → Option ℕ) → Option (List Worker) → Option (List Worker) → Type 0
IsProbed get none after = after ≡ none
IsProbed get (some workers) after =
    (probed : List Worker) × (after ≡ some probed) × AreProbed get workers probed

run-AreProbed :
    (get : String → Option ℕ) (workers : List Worker)
    → AreProbed get workers (run_health_checks get workers)
unfolding run_health_checks
run-AreProbed get [] = tt
run-AreProbed get (w ∷ workers) = (refl, probe_iff get w.url, run-AreProbed get workers)

checked-AreProbed :
    (get : String → Option ℕ) (workers : List Worker) → AreProbed get workers (checked get workers)
checked-AreProbed get [] = tt
checked-AreProbed get (u ∷ workers) = run-AreProbed get (u ∷ workers)

checked_pool-IsProbed :
    (get : String → Option ℕ) (pool : Option (List Worker))
    → IsProbed get pool (checked_pool get pool)
checked_pool-IsProbed get none = refl
checked_pool-IsProbed get (some workers) = (_, refl, checked-AreProbed get workers)

-- After a round, in either mode, the pool of each of the three routes has the workers it had, and a
-- worker is healthy exactly when its /health answered 200. The policies are as they were.
pub health_round-IsProbed :
    {S : Type 0} (get : String → Option ℕ) (self : AppState S)
    → IsProbed get (serving_pool self) (serving_pool (health_round get self))
      × IsProbed get (prefill_stage.pool self) (prefill_stage.pool (health_round get self))
      × IsProbed get (decode_stage.pool self) (decode_stage.pool (health_round get self))
      × (serving_policy (health_round get self) ≡ serving_policy self)
      × (prefill_stage.policy (health_round get self) ≡ prefill_stage.policy self)
      × (decode_stage.policy (health_round get self) ≡ decode_stage.policy self)
unfolding health_round
health_round-IsProbed get self = elim (Bool-cases self.k8s_mode) [
  | inl k8s ↦ rw k8s (
    checked_pool-IsProbed get self.k8s_workers_pool,
    checked_pool-IsProbed get self.k8s_prefill_pool,
    checked_pool-IsProbed get self.k8s_decode_pool,
    refl,
    refl,
    refl,
  )
  | inr static ↦ rw static (
    (_, refl, run-AreProbed get self.workers),
    (_, refl, checked-AreProbed get self.prefill_workers),
    (_, refl, checked-AreProbed get self.decode_workers),
    refl,
    refl,
    refl,
  )
]
