-- ===== src/Discovery/Selection.antt =====
-- The label selector that the watcher pushes down to the API server, and the scope of its API. The
-- kube crate is no code of the repository: what it builds of them is a parameter.
use tokendog.Base.{
  ◌≡◌, refl, ap, String, List, [], ◌∷◌, Option, none, some, true, false, ◌&&◌, ◌||◌, arith, retain,
  Bool-cases, inl, inr, All, All-retain, some_eq, if◌then◌else◌,
}
use tokendog.Base.Map.{lookup}
use tokendog.Base.Text.{str_eq, eq_iff}
use tokendog.Discovery.Pods.{
  Pod, ServiceDiscoveryConfig, is_some_eq, all, is_empty, labels_match, matches_selector,
  should_include, entries,
}

module _ {W : Type 0} (default : W) (labels : String → W) where
  -- No label selector at all for an empty text.
  unfoldable pub build_watcher_config : String → W
  build_watcher_config label_selector =
      if str_eq label_selector "" then default else labels label_selector

module _ {A : Type 0} (namespaced : String → A) (everywhere : A) where
  -- The API of one namespace, or of all.
  abbrev pub pods_api : ServiceDiscoveryConfig → A
  pods_api config = elim config.namespace [ none ↦ everywhere | some name ↦ namespaced name ]

-- The pod has the label.
abbrev pub HasLabel : Pod → String × String → Type 0
HasLabel pod (k, v) =
    (found : List (String × String)) × (pod.labels ≡ some found) × (lookup k found ≡ some v)

is_some_eq-true : (o : Option String) (v : String) → is_some_eq o v ≡ true → o ≡ some v
is_some_eq-true none v e = cc
is_some_eq-true (some w) v e = ap some ((eq_iff w v).0 e)

all-HasLabel :
    (pod : Pod) (found : List (String × String)) (selector : List (String × String))
    → pod.labels ≡ some found
    → all (λ (k, v). is_some_eq (lookup k found) v) selector ≡ true
    → All (HasLabel pod) selector
all-HasLabel pod found [] at e = tt
all-HasLabel pod found ((k, v) ∷ selector) at e = (
  (found, at, is_some_eq-true (lookup k found) v (ground arith)),
  all-HasLabel pod found selector at (ground arith),
)

labels_match-HasLabel :
    (pod : Pod) (o : Option (List (String × String))) (selector : List (String × String))
    → pod.labels ≡ o
    → labels_match o selector ≡ true
    → All (HasLabel pod) selector
labels_match-HasLabel pod none selector at e = cc
labels_match-HasLabel pod (some found) selector at e = all-HasLabel pod found selector at e

matches_selector-HasLabel :
    (pod : Pod) (selector : List (String × String))
    → matches_selector pod selector ≡ true
    → All (HasLabel pod) selector
unfolding matches_selector
matches_selector-HasLabel pod [] e = tt
matches_selector-HasLabel pod (entry ∷ selector) e =
    labels_match-HasLabel pod pod.labels (entry ∷ selector) refl e

All-lookup :
    (P : String × String → Type 0) (k v : String) (selector : List (String × String))
    → All P selector
    → lookup k selector ≡ some v
    → P (k, v)
unfolding lookup
All-lookup P k v [] h e = cc
All-lookup P k v ((key, value) ∷ selector) h e = elim (Bool-cases (str_eq key k)) [
  | inl hit ↦
      let same : key ≡ k = (eq_iff key k).0 hit in
      let value_same : value ≡ v = some_eq (rw hit at e) in rw (← same, ← value_same) h.0
  | inr miss ↦ All-lookup P k v selector h.1 (rw miss at e)
]

common :
    (pod : Pod) (prefill decode : List (String × String))
    → All (HasLabel pod) decode
    → All (HasLabel pod) (retain (λ (k, v). is_some_eq (lookup k decode) v) prefill)
common pod [] decode h = tt
common pod ((k, v) ∷ prefill) decode h = elim (Bool-cases (is_some_eq (lookup k decode) v)) [
  | inl both ↦ rw both (
    All-lookup (HasLabel pod) k v decode h (is_some_eq-true (lookup k decode) v both),
    common pod prefill decode h,
  )
  | inr one ↦ rw one (common pod prefill decode h)
]

-- The label selector that the API server filters by hides no pod that the router includes: a pod that
-- should_include takes has each label of the selector.
pub entries-should_include :
    (pod : Pod) (config : ServiceDiscoveryConfig)
    → should_include pod config ≡ true
    → All (HasLabel pod) (entries config)
unfolding should_include
entries-should_include pod config e = elim (Bool-cases config.pd_mode) [
  | inl pd ↦ rw pd (in_pd_mode (rw pd at e))
  | inr regular ↦ rw regular (
      let taken : (if is_empty config.selector then false else matches_selector pod config.selector)
          ≡ true =
        rw regular at e in
      matches_selector-HasLabel pod config.selector (ground arith))
]
  where
    in_pd_mode :
        (if is_empty config.prefill_selector && is_empty config.decode_selector
            then false
            else matches_selector pod config.prefill_selector
              || matches_selector pod config.decode_selector)
          ≡ true
        → All (HasLabel pod) (
            retain
              (λ (k, v). is_some_eq (lookup k config.decode_selector) v)
              config.prefill_selector)
    in_pd_mode h = elim (Bool-cases (matches_selector pod config.prefill_selector)) [
      | inl p ↦
          All-retain (HasLabel pod) (λ (k, v). is_some_eq (lookup k config.decode_selector) v)
            config.prefill_selector (matches_selector-HasLabel pod config.prefill_selector p)
      | inr q ↦
          common pod config.prefill_selector config.decode_selector
            (matches_selector-HasLabel pod config.decode_selector (ground arith))
    ]
