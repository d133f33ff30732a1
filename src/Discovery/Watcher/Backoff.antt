-- ===== src/Discovery/Watcher/Backoff.antt =====
-- The waits of the watcher loop, and what its runs come to together.
use mathlib.Core.List.{append-nil, append_assoc}
use tokendog.Base.{
  ℕ, suc, ◌*◌, ◌^◌, ◌≡◌, refl, sym, ap, ◌∙◌, min, List, [], ◌∷◌, ◌++◌, arith, Bool-cases, inl, inr,
  if◌then◌else◌,
}
use tokendog.Discovery.Pods.{Pod, ServiceDiscoveryConfig}
use tokendog.Discovery.Pools.{Discovery}
use tokendog.Discovery.Watcher.{
  StreamRun, Watcher, max_retry_delay, watch_all, turn, start, watcher_loop,
}

-- The delay after `k` failures in a row: it doubles from one second up to five minutes.
abbrev pub delay_after : ℕ → ℕ
delay_after k = min (2 ^ k) max_retry_delay

-- The failures in a row after a run, with `k` before it.
abbrev pub next_failures : ℕ → StreamRun → ℕ
next_failures k run = if run.failed then suc k else 0

abbrev pub failures : ℕ → List StreamRun → ℕ
failures k [] = k
failures k (run ∷ runs) = failures (next_failures k run) runs

-- The waits that the runs make, with `k` failures before them.
abbrev pub turn_waits : ℕ → ℕ → StreamRun → List ℕ
turn_waits interval k run = if run.failed then delay_after k ∷ interval ∷ [] else interval ∷ []

abbrev pub waits_of : ℕ → ℕ → List StreamRun → List ℕ
waits_of interval k [] = []
waits_of interval k (run ∷ runs) =
    turn_waits interval k run ++ waits_of interval (next_failures k run) runs

-- The pods of all the runs.
abbrev pub pods_of : List StreamRun → List Pod
pods_of [] = []
pods_of (run ∷ runs) = run.pods ++ pods_of runs

delay_after-suc : (k : ℕ) → min (delay_after k * 2) max_retry_delay ≡ delay_after (suc k)
delay_after-suc k = omega arith

watch_all-++ :
    (config : ServiceDiscoveryConfig) (a b : List Pod) (self : Discovery)
    → watch_all config (a ++ b) self ≡ watch_all config b (watch_all config a self)
unfolding watch_all
watch_all-++ config [] b self = refl
watch_all-++ config (pod ∷ a) b self = watch_all-++ config a b _

IsAfter : ServiceDiscoveryConfig → ℕ → List StreamRun → Watcher → Watcher → Type 0
IsAfter config k runs self t =
    (t.retry_delay ≡ delay_after (failures k runs))
    × (t.waits ≡ self.waits ++ waits_of config.check_interval k runs)
    × (t.discovery ≡ watch_all config (pods_of runs) self.discovery)

IsTurned : ServiceDiscoveryConfig → ℕ → StreamRun → Watcher → Watcher → Type 0
IsTurned config k run self t =
    (t.retry_delay ≡ delay_after (next_failures k run))
    × (t.waits ≡ self.waits ++ turn_waits config.check_interval k run)
    × (t.discovery ≡ watch_all config run.pods self.discovery)

turn-IsTurned :
    (config : ServiceDiscoveryConfig) (run : StreamRun) (k : ℕ) (self : Watcher)
    → self.retry_delay ≡ delay_after k
    → IsTurned config k run self (turn config run self)
unfolding IsTurned turn
turn-IsTurned config run k self at = elim (Bool-cases run.failed) [
  | inl failed ↦ rw failed (
    ap (λ d. min (d * 2) max_retry_delay) at ∙ delay_after-suc k,
    append_assoc self.waits (self.retry_delay ∷ []) (config.check_interval ∷ [])
        ∙ ap (λ d. self.waits ++ d ∷ config.check_interval ∷ []) at,
    refl,
  )
  | inr ended ↦ rw ended (refl, refl, refl)
]

loop-IsAfter :
    (config : ServiceDiscoveryConfig) (runs : List StreamRun) (k : ℕ) (self : Watcher)
    → self.retry_delay ≡ delay_after k
    → IsAfter config k runs self (watcher_loop config runs self)
unfolding IsAfter IsTurned watcher_loop watch_all
loop-IsAfter config [] k self at = (at, sym (append-nil self.waits), refl)
loop-IsAfter config (run ∷ runs) k self at =
    let (delay, waited, seen) = turn-IsTurned config run k self at in
    let (delays, waits, all_seen) =
      loop-IsAfter config runs (next_failures k run) (turn config run self) delay in
    (
      delays,
      waits
          ∙ (ap (λ w. w ++ waits_of config.check_interval (next_failures k run) runs) waited
              ∙ append_assoc self.waits (turn_waits config.check_interval k run)
                  (waits_of config.check_interval (next_failures k run) runs)),
      all_seen
          ∙ (ap (λ d. watch_all config (pods_of runs) d) seen
              ∙ sym (watch_all-++ config run.pods (pods_of runs) self.discovery)),
    )

-- After any runs of the stream, the delay of the watcher is two to the number of failures in a row,
-- and five minutes at most, so its waits are these delays and the interval after each run; and the
-- pools and the tracked pods are what one run with the pods of all of them would give.
pub watcher_loop-start :
    (config : ServiceDiscoveryConfig) (runs : List StreamRun) (discovery : Discovery)
    → ((watcher_loop config runs (start discovery)).retry_delay ≡ delay_after (failures 0 runs))
      × ((watcher_loop config runs (start discovery)).waits ≡ waits_of config.check_interval 0 runs)
      × ((watcher_loop config runs (start discovery)).discovery
          ≡ watch_all config (pods_of runs) discovery)
unfolding start IsAfter
watcher_loop-start config runs discovery = loop-IsAfter config runs 0 (start discovery) refl
