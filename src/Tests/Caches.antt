-- ===== src/Tests/Caches.antt =====
-- The policies that remember a prefix, and the seven as one.
use tokendog.Base.{
  ℕ, zero, suc, ◌<◌, ◌≡◌, ◌≤◌, ◌⊎◌, inr, refl, List, [], ◌∷◌, some, arith, ret, panic, get_elem?,
}
use tokendog.Config.{load_cache_aware}
use tokendog.Policies.Hash.{stable_hash}
use tokendog.Policies.F64.{AtLeast}
use tokendog.Policies.Shortest.{min_load}
use tokendog.Base.Map.{lookup}
use tokendog.Policies.PrefixAffinity
use tokendog.Policies.PrefixAffinity.{PrefixAffinity}
use tokendog.Policies.PrefixAffinity.Routing.{
  preferred, select_with_context_routes, select_with_context_panics,
}
use tokendog.Policies.LoadCacheAware
use tokendog.Policies.LoadCacheAware.{
  LoadCacheAware, CacheDirectory, empty_directory, get_affinity, record_entry, mark,
}
use tokendog.Policies.LoadCacheAware.Affinity.{get_affinity-record_entry}
use tokendog.Policies.LoadCacheAware.Best.{HasScore, select_with_context_best}
use tokendog.Policies.Balancer
use tokendog.Policies.Balancer.{Balancer, least, cache, make_policy}
use tokendog.Policies.Balancer.Range.{select_with_context_lt}
use tokendog.Policies.Balancer.Lawful.{make_policy-Room}
use tokendog.Tests.Samples.{quiet, tenths, tenths-IsOrdered, two_urls, alice}

abbrev light : PrefixAffinity
light = record { active = 3 ∷ 3 ∷ []; threshold = 10 }

select_with_context_routes_example :
    (r : ℕ) × (PrefixAffinity.select_with_context quiet light two_urls alice ≡ ret r)
    × (((r ≡ preferred two_urls alice) × (3 < 10))
        ⊎ ((r < 2) × (get_elem? (3 ∷ 3 ∷ []) r ≡ some (min_load (3 ∷ 3 ∷ []))) × (10 ≤ 3)))
unfolding stable_hash min_load
select_with_context_routes_example =
    select_with_context_routes quiet light two_urls alice 3 refl 0 (omega arith) (omega arith)
      (omega arith) refl

abbrev heavy : PrefixAffinity
heavy = record { active = 12 ∷ 12 ∷ 15 ∷ []; threshold = 10 }

-- Two workers at the threshold, and the idle slot of a third that is not there.
abbrev spare_slot : PrefixAffinity
spare_slot = record { active = 12 ∷ 12 ∷ 0 ∷ []; threshold = 10 }

all_above :
    (j p : ℕ) → j < 2 → get_elem? (12 ∷ 12 ∷ 0 ∷ []) j ≡ some p → min_load (12 ∷ 12 ∷ 0 ∷ []) < p
unfolding min_load
all_above zero p lt at = let e : p ≡ 12 = ground arith in omega arith
all_above (suc zero) p lt at = let e : p ≡ 12 = ground arith in omega arith
all_above (suc (suc j)) p lt at = omega arith

select_with_context_panics_example :
    PrefixAffinity.select_with_context quiet spare_slot two_urls alice ≡ panic
unfolding stable_hash
select_with_context_panics_example =
    select_with_context_panics quiet spare_slot two_urls alice 12 refl (omega arith) (omega arith)
      (omega arith) all_above

get_affinity-record_entry_example :
    get_elem?
      (get_affinity tenths
        (record_entry (empty_directory 50) 80 "hello" "alice" 1)
        100
        "hello"
        "alice"
        2)
      1
    ≡ some 5
get_affinity-record_entry_example =
    get_affinity-record_entry tenths (empty_directory 50) 100 2 "hello" "alice" 80 1 1 (omega arith)
      (omega arith) (inr (omega arith))

abbrev warm : LoadCacheAware tenths
warm = record {
  active = 6 ∷ 2 ∷ [];
  cache_dir = record { prefix_map = ("hello", (1, 80)) ∷ []; session_map = []; staleness = 0 };
  alpha = 7;
  beta = 3;
}

abbrev warm_affinity : List ℕ
warm_affinity = get_affinity tenths warm.cache_dir 100 "hello" "alice" 2

select_with_context_best_example :
    (r : ℕ) × (best : ℕ) × (LoadCacheAware.select_with_context tenths quiet warm two_urls alice
      ≡ ret r)
    × (r < 2)
    × HasScore tenths warm warm_affinity r best
    × ((j : ℕ) (x : ℕ) → j < 2 → HasScore tenths warm warm_affinity j x → AtLeast tenths best x)
select_with_context_best_example =
    select_with_context_best tenths tenths-IsOrdered quiet warm two_urls alice (omega arith)
      (omega arith) (λ j x has. λ e. ground arith)

abbrev idle : Balancer tenths
idle = least (record { active = 4 ∷ 1 ∷ [] })

select_with_context_lt_example : 1 < 2
unfolding Balancer.select_with_context LoadCacheAware.select_with_context lookup
select_with_context_lt_example =
    select_with_context_lt tenths quiet (cache warm) (cache warm) two_urls alice 1 refl

make_policy-Room_example :
    (b : Balancer tenths) × (make_policy tenths load_cache_aware 2 ≡ ret b)
    × Balancer.Room.Room tenths b 2
make_policy-Room_example = make_policy-Room tenths load_cache_aware 2 0 (omega arith) refl
