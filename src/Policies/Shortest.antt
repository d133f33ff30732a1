-- ===== src/Policies/Shortest.antt =====
-- Join-Shortest-Queue: jsq_fallback of crates/router/src/policies/prefix_affinity.rs, and the same
pub mod Minimum
-- lines in LoadCacheAware::select.
use tokendog.Base.{
  ℕ, zero, suc, ◌+◌, List, [], ◌∷◌, Outcome, ret, ◌>>=◌, length, min, get_elem?, unwrap, ◌==◌,
  if◌then◌else◌,
}
use tokendog.Base.Env.{Env, gen_range}
use tokendog.Policies.Active.{load}

-- `active.iter().map(load).min().unwrap_or(0)`.
abbrev pub minimum : ℕ → List ℕ → ℕ
minimum least [] = least
minimum least (q ∷ active) = minimum (min least q) active

unfoldable pub min_load : List ℕ → ℕ
min_load [] = 0
min_load (q ∷ active) = minimum q active

-- `(i..i + rounds).filter(|i| active[*i].load() == min_q).collect()`.
unfoldable pub tied_from : List ℕ → ℕ → ℕ → ℕ → Outcome (List ℕ)
tied_from active min_q zero i = ret []
tied_from active min_q (suc rounds) i = do
  q ← load active i
  tied ← tied_from active min_q rounds (i + 1)
  ret (if q == min_q then i ∷ tied else tied)

unfoldable pub jsq_fallback : Env → List ℕ → ℕ → Outcome ℕ
unfolding min_load tied_from
jsq_fallback env active n = do
  tied ← tied_from active (min_load active) n 0
  k ← gen_range env 0 (length tied)
  unwrap (get_elem? tied k)
