-- ===== src/Discovery/Supervisor/Told.antt =====
-- What the supervised reconciliations come to.
use mathlib.Core.List.{append-nil, append_assoc}
use tokendog.Base.{
  ℕ, ◌≡◌, refl, ap, sym, ◌∙◌, List, [], ◌∷◌, ◌++◌, map, Option, Bool-cases, inl, inr, if◌then◌else◌,
}
use tokendog.Discovery.Pods.{Pod, ServiceDiscoveryConfig}
use tokendog.Discovery.Pools.{Discovery}
use tokendog.Discovery.Reconcile.{reconcile_pods}
use tokendog.Discovery.Consistency.Updates.{Update, listed, apply, apply_all}
use tokendog.Discovery.Supervisor.{TaskRun, Supervisor, reconcile_all, supervise}

-- What the runs are told, up to the first that does not panic, and the waits between them.
abbrev pub told : List TaskRun → List Update
told [] = []
told (run ∷ runs) =
    let rest = told runs in map listed run.answers ++ (if run.panicked then rest else [])

abbrev pub pauses : ℕ → List TaskRun → List ℕ
pauses interval [] = []
pauses interval (run ∷ runs) =
    let rest = pauses interval runs in if run.panicked then interval ∷ rest else []

apply_all-append :
    (config : ServiceDiscoveryConfig) (us vs : List Update) (self : Discovery)
    → apply_all config (us ++ vs) self ≡ apply_all config vs (apply_all config us self)
apply_all-append config [] vs self = refl
apply_all-append config (u ∷ us) vs self = apply_all-append config us vs (apply config u self)

reconcile_all-apply_all :
    (config : ServiceDiscoveryConfig) (answers : List (Option (List Pod))) (self : Discovery)
    → reconcile_all config answers self ≡ apply_all config (map listed answers) self
unfolding reconcile_all
reconcile_all-apply_all config [] self = refl
reconcile_all-apply_all config (items ∷ answers) self =
    reconcile_all-apply_all config answers (reconcile_pods config items self)

-- Whatever the runs are, the pools and the tracked pods are those of the reconciliations of the runs
-- up to the first that ends without a panic, in order, and there is one wait of the interval after
-- each run that panicked before.
pub supervise-apply_all :
    (config : ServiceDiscoveryConfig) (runs : List TaskRun) (self : Supervisor)
    → ((supervise config runs self).discovery ≡ apply_all config (told runs) self.discovery)
      × ((supervise config runs self).waits ≡ self.waits ++ pauses config.check_interval runs)
unfolding supervise
supervise-apply_all config [] self = (refl, sym (append-nil self.waits))
supervise-apply_all config (run ∷ runs) self = elim (Bool-cases run.panicked) [
  | inl again ↦
      let done = reconcile_all config run.answers self.discovery in
      let (seen, waits) =
        supervise-apply_all config runs
          (record { discovery = done; waits = self.waits ++ config.check_interval ∷ [] }) in
      rw again (
        seen
            ∙ (ap (apply_all config (told runs))
                  (reconcile_all-apply_all config run.answers self.discovery)
                ∙ sym
                    (apply_all-append config (map listed run.answers) (told runs) self.discovery)),
        waits
            ∙ append_assoc self.waits (config.check_interval ∷ [])
                (pauses config.check_interval runs),
      )
  | inr over ↦ rw over (
    reconcile_all-apply_all config run.answers self.discovery
        ∙ sym (apply_all-append config (map listed run.answers) [] self.discovery),
    sym (append-nil self.waits),
  )
]
