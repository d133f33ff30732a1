-- ===== src/Tests/Policies.antt =====
-- The policies on two or three workers.
use tokendog.Base.{ℕ, ◌≤◌, ◌<◌, ◌≡◌, ◌⊎◌, refl, [], ◌∷◌, some, arith, ret, get_elem?}
use tokendog.Policies.RoundRobin.{RoundRobin}
use tokendog.Policies.RoundRobin.Fairness.{nth_selection, each_worker_once}
use tokendog.Policies.LeastLoaded
use tokendog.Policies.LeastLoaded.{LeastLoaded}
use tokendog.Policies.LeastLoaded.Minimality.{Floor, select-least, select_first_least}
use tokendog.Policies.PowerOfTwo
use tokendog.Policies.PowerOfTwo.{PowerOfTwo}
use tokendog.Policies.PowerOfTwo.Choice.{select_lighter}
use tokendog.Tests.Samples.{quiet, two_urls, three_urls}

abbrev at_two : RoundRobin
at_two = record { counter = 2 }

each_worker_once_example :
    (k : ℕ) × (k < 3)
    × (nth_selection k at_two three_urls ≡ ret 1)
    × ((j : ℕ) → j < 3 → nth_selection j at_two three_urls ≡ ret 1 → j ≡ k)
each_worker_once_example = each_worker_once at_two three_urls 1 (omega arith) (omega arith)

abbrev later_least : LeastLoaded
later_least = record { active = 4 ∷ 7 ∷ 1 ∷ [] }

select-least_example :
    (r m : ℕ) × (LeastLoaded.select quiet later_least three_urls ≡ ret r)
    × (r < 3)
    × (get_elem? (4 ∷ 7 ∷ 1 ∷ []) r ≡ some m)
    × Floor (4 ∷ 7 ∷ 1 ∷ []) 0 3 m
select-least_example =
    select-least quiet later_least three_urls 2 1 4 (omega arith) (omega arith) (omega arith) refl
      refl (omega arith)

abbrev first_least : LeastLoaded
first_least = record { active = 0 ∷ 7 ∷ [] }

first-Floor : Floor (0 ∷ 7 ∷ []) 0 2 0
first-Floor j q lo hi at = omega arith

select_first_least_example : LeastLoaded.select quiet first_least two_urls ≡ ret 0
select_first_least_example =
    select_first_least quiet first_least two_urls 0 (omega arith) (omega arith) refl first-Floor

abbrev two_loads : PowerOfTwo
two_loads = record { active = 3 ∷ 5 ∷ [] }

select_lighter_example :
    (r m a b : ℕ) × (PowerOfTwo.select quiet two_loads two_urls ≡ ret r)
    × (r < 2)
    × ((r ≡ 0) ⊎ (r ≡ 0))
    × (get_elem? (3 ∷ 5 ∷ []) r ≡ some m)
    × (get_elem? (3 ∷ 5 ∷ []) 0 ≡ some a)
    × (get_elem? (3 ∷ 5 ∷ []) 0 ≡ some b)
    × (m ≤ a)
    × (m ≤ b)
select_lighter_example = select_lighter quiet two_loads two_urls (omega arith) (omega arith)
