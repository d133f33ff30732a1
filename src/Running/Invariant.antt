-- ===== src/Running/Invariant.antt =====
-- The counters agree with the requests in flight after any sequence of calls.
use tokendog.Base.{
  ℕ, suc, ◌≤◌, ◌≡◌, refl, sym, ap, subst, ◌∙◌, String, List, [], ◌∷◌, ◌++◌, Option, none, some,
  true, ret, ret_eq, length, arith,
}
use tokendog.Policies.F64.{F64}
use tokendog.Policies.Balancer.{Balancer, balancer_trait}
use tokendog.Server.{AppState}
use tokendog.Startup.{health_round}
use tokendog.Startup.Health.{AreProbed, IsProbed, health_round-IsProbed}
use tokendog.Running.Routes.{Route, regular, prefill, decode, finish_on}
use tokendog.Running.Steps.{
  Running, Fits, with_pools, Step, given, selected, started, refused, recorded, finished, probed,
  discovered, Reach, here, later,
}
use tokendog.Running.Loads.{load_on, load_on-middle}
use tokendog.Running.Calls.{next_on-none}
use tokendog.Running.Balanced.{
  IsBalancedOn, IsBalanced, given_balanced, selected_balanced, started_balanced, finish_balanced,
  recorded_balanced, same_balanced,
}
use tokendog.Worker.{Worker}

AreProbed-length :
    (get : String → Option ℕ) (before after : List Worker)
    → AreProbed get before after
    → length after ≡ length before
AreProbed-length get [] [] h = refl
AreProbed-length get [] (v ∷ after) h = absurd h
AreProbed-length get (w ∷ before) [] h = absurd h
AreProbed-length get (w ∷ before) (v ∷ after) (_, _, rest) =
    ap suc (AreProbed-length get before after rest)

IsProbed-Fits :
    (get : String → Option ℕ) (n : ℕ) (pool after : Option (List Worker))
    → IsProbed get pool after
    → Fits n pool
    → Fits n after
IsProbed-Fits get n none after same fits = subst (Fits n) (sym same) tt
IsProbed-Fits get n (some workers) after (probed', same, each) fits =
    let long = AreProbed-length get workers probed' each in
    let fits' : length probed' ≤ n = omega arith in subst (Fits n) (sym same) fits'

module _ (f : F64) (capacity : Route → ℕ) where
  probed_balanced :
      (get : String → Option ℕ) (self : AppState (Balancer f)) (l : List (Route × ℕ))
      → ((q : Route) → IsBalancedOn f capacity q self (load_on l q))
      → (q : Route) → IsBalancedOn f capacity q (health_round get self) (load_on l q)
  probed_balanced get self l h regular =
      let (w, p, d, w_kept, p_kept, d_kept) = health_round-IsProbed get self in
      let (fits, counted, bound) = h regular in
      (IsProbed-Fits get (capacity regular) _ _ w fits, rw w_kept counted, bound)
  probed_balanced get self l h prefill =
      let (w, p, d, w_kept, p_kept, d_kept) = health_round-IsProbed get self in
      let (fits, counted, bound) = h prefill in
      (IsProbed-Fits get (capacity prefill) _ _ p fits, rw p_kept counted, bound)
  probed_balanced get self l h decode =
      let (w, p, d, w_kept, p_kept, d_kept) = health_round-IsProbed get self in
      let (fits, counted, bound) = h decode in
      (IsProbed-Fits get (capacity decode) _ _ d fits, rw d_kept counted, bound)

  discovered_balanced :
      (self : AppState (Balancer f)) (l : List (Route × ℕ))
      (workers prefill_pool decode_pool : Option (List Worker))
      → ((q : Route) → IsBalancedOn f capacity q self (load_on l q))
      → self.k8s_mode ≡ true
      → Fits (capacity regular) workers
      → Fits (capacity prefill) prefill_pool
      → Fits (capacity decode) decode_pool
      → (q : Route)
      → IsBalancedOn f capacity q (with_pools self workers prefill_pool decode_pool) (load_on l q)
  discovered_balanced self l workers prefill_pool decode_pool h k8s w p d regular =
      let (fits, counted, bound) = h regular in (rw k8s w, counted, bound)
  discovered_balanced self l workers prefill_pool decode_pool h k8s w p d prefill =
      let (fits, counted, bound) = h prefill in (rw k8s p, counted, bound)
  discovered_balanced self l workers prefill_pool decode_pool h k8s w p d decode =
      let (fits, counted, bound) = h decode in (rw k8s d, counted, bound)

  -- A request in flight, wherever it stands in the list, can end.
  pub finish_returns :
      (a : Running (Balancer f)) (r : Route) (i : ℕ) (before after : List (Route × ℕ))
      → IsBalanced f capacity a
      → a.in_flight ≡ before ++ (r, i) ∷ after
      → (t : AppState (Balancer f)) × (finish_on (balancer_trait f) r a.state i ≡ ret t)
        × IsBalanced f capacity (record { state = t; in_flight = before ++ after })
  finish_returns a r i before after h at =
      finish_balanced f capacity r i a.state (before ++ after) (
        same_balanced f capacity a.state a.state a.in_flight ((r, i) ∷ before ++ after) h refl
          (λ q j. sym (ap (λ l. load_on l q j) at ∙ load_on-middle before after (r, i) q j)))

  Step-IsBalanced :
      {a b : Running (Balancer f)}
      → Step (balancer_trait f) capacity a b
      → IsBalanced f capacity a
      → IsBalanced f capacity b
  Step-IsBalanced {a} {b} (given r env ctx i url run at) h =
      rw at (given_balanced f capacity r env ctx i url a.state b.state a.in_flight h run)
  Step-IsBalanced {a} {b} (selected r env ctx urls k p chosen at run state same) h =
      rw (state, same)
        (selected_balanced f capacity r env ctx urls k p chosen a.state a.in_flight h at run)
  Step-IsBalanced {a} {b} (started r i p next at lt run state same) h =
      rw (state, same) (started_balanced f capacity r i p next a.state a.in_flight h at lt run)
  Step-IsBalanced {a} {b} (refused r env ctx run at) h = rw at (
      same_balanced f capacity a.state b.state a.in_flight a.in_flight h
        (next_on-none (balancer_trait f) r env a.state b.state ctx run) (λ q j. refl))
  Step-IsBalanced {a} {b} (recorded r env ctx i state at) h =
      rw (state, at) (recorded_balanced f capacity r env ctx i a.state a.in_flight h)
  Step-IsBalanced {a} {b} (finished r i before after from run at) h =
      let (t, run', h') = finish_returns a r i before after h from in
      let same : b.state ≡ t = ret_eq (sym run ∙ run') in rw (same, at) h'
  Step-IsBalanced {a} {b} (probed get state at) h =
      rw (state, at) (probed_balanced get a.state a.in_flight h)
  Step-IsBalanced {a} {b} (discovered workers prefill_pool decode_pool k8s w p d state at) h =
      rw (state, at)
        (discovered_balanced a.state a.in_flight workers prefill_pool decode_pool h k8s w p d)

  pub Reach-IsBalanced :
      {a b : Running (Balancer f)}
      → Reach (balancer_trait f) capacity a b
      → IsBalanced f capacity a
      → IsBalanced f capacity b
  Reach-IsBalanced here h = h
  Reach-IsBalanced (later r step) h = Step-IsBalanced step (Reach-IsBalanced r h)
