-- ===== src/Policies/LoadCacheAware.antt =====
-- crates/router/src/policies/load_cache_aware.rs. An Instant and a Duration are numbers of
-- nanoseconds; Instant::duration_since stops at 0, as `-` does.
pub mod Affinity
pub mod Best
use Prim.Native.Nat.{Ordering}
use tokendog.Base.{
  ℕ, zero, suc, ◌+◌, ◌-◌, String, List, [], ◌∷◌, ◌++◌, Option, none, some, Bool, ◌&&◌, ◌||◌,
  Outcome, ret, ◌>>=◌, ◌>>◌, assert, unwrap, length, get_elem?, set, replicate, max, ltb, ◌==◌,
  if◌then◌else◌,
}
use tokendog.Base.Env.{Env, gen_range}
use tokendog.Base.Map.{lookup, insert}
use tokendog.Policies.{RequestContext}
use tokendog.Policies.Active.{counters, load}
use tokendog.Policies.F64.{F64}
use tokendog.Policies.Shortest.{jsq_fallback}

pub record CacheDirectory : Type 0 where
  pub prefix_map : List (String × (ℕ × ℕ))
  pub session_map : List (String × (ℕ × ℕ))
  pub staleness : ℕ

abbrev pub empty_directory : ℕ → CacheDirectory
empty_directory staleness = record { prefix_map = []; session_map = []; staleness = staleness }

-- An entry counts if its worker is in range and it is not stale; a staleness of zero disables the
-- test.
abbrev pub is_usable : CacheDirectory → ℕ → ℕ → ℕ → ℕ → Bool
is_usable self now n_workers idx ts =
    ltb idx n_workers && (self.staleness == 0 || ltb (now - ts) self.staleness)

-- `if let Some(&(idx, ts)) = entry { … scores[idx] = score }`.
unfoldable pub mark {ℓ} :
    {A : Type ℓ} → CacheDirectory → ℕ → ℕ → A → Option (ℕ × ℕ) → List A → List A
mark self now n_workers score none scores = scores
mark self now n_workers score (some (idx, ts)) scores =
    if is_usable self now n_workers idx ts then set scores idx score else scores

-- `CacheDirectory::record`.
unfoldable pub record_entry : CacheDirectory → ℕ → String → String → ℕ → CacheDirectory
record_entry self now prefix_key session_id worker_idx = record self {
  prefix_map = insert prefix_key (worker_idx, now) self.prefix_map;
  session_map = insert session_id (worker_idx, now) self.session_map;
}

-- `loads.iter().max().copied().unwrap_or(1).max(1)`.
abbrev pub maximum : ℕ → List ℕ → ℕ
maximum most [] = most
maximum most (q ∷ loads) = maximum (max most q) loads

unfoldable pub max_load : List ℕ → ℕ
max_load [] = 1
max_load (q ∷ loads) = max (maximum q loads) 1

module _ (f : F64) where
  pub record LoadCacheAware : Type 0 where
    pub active : List ℕ
    pub cache_dir : CacheDirectory
    pub alpha : f.Carrier
    pub beta : f.Carrier

  unfoldable pub get_affinity : CacheDirectory → ℕ → String → String → ℕ → List f.Carrier
  unfolding mark
  get_affinity self now prefix_key session_id n_workers =
      mark self now n_workers (f.decimal 5 1) (lookup session_id self.session_map) (
        mark self now n_workers (f.decimal 1 0) (lookup prefix_key self.prefix_map)
          (replicate n_workers (f.decimal 0 1)))

  abbrev pub with_params : ℕ → f.Carrier → f.Carrier → f.Carrier → Outcome LoadCacheAware
  with_params worker_count alpha beta cache_staleness_secs = do
    assert (ltb 0 worker_count)
    staleness ← unwrap (f.from_secs_f64 cache_staleness_secs)
    ret (record {
      active = counters worker_count;
      cache_dir = empty_directory staleness;
      alpha = alpha;
      beta = beta;
    })

  abbrev pub new : ℕ → Outcome LoadCacheAware
  new worker_count = with_params worker_count (f.decimal 7 1) (f.decimal 3 1) (f.decimal 0 1)

  unfoldable pub select : Env → LoadCacheAware → List String → Outcome ℕ
  select env self workers =
      if length workers == 1 then ret 0 else jsq_fallback env self.active (length workers)

  unfoldable pub score : LoadCacheAware → f.Carrier → ℕ → f.Carrier
  unfolding max_load
  score self affinity q =
      let load_score = f.div (f.of_usize q) (f.of_usize (max_load self.active)) in
      f.sub (f.mul self.alpha affinity) (f.mul self.beta load_score)

  -- The `match` on `score.partial_cmp(&best_score)`; `none` is NaN, which is skipped.
  unfoldable pub keep_best :
      Option Ordering → f.Carrier → ℕ → f.Carrier × List ℕ → f.Carrier × List ℕ
  keep_best (some Ordering.gt) score i (best_score, best_indices) = (score, i ∷ [])
  keep_best (some Ordering.eq) score i (best_score, best_indices) =
      (best_score, best_indices ++ i ∷ [])
  keep_best _ score i best = best

  -- `for i in 0..n`, with `rounds` rounds left.
  unfoldable pub scan :
      LoadCacheAware → List f.Carrier → ℕ → ℕ → f.Carrier × List ℕ → Outcome (f.Carrier × List ℕ)
  unfolding score keep_best
  scan self affinity zero i best = ret best
  scan self affinity (suc rounds) i best = do
    q ← load self.active i
    a ← unwrap (get_elem? affinity i)
    scan self affinity rounds (i + 1)
        (keep_best (f.partial_cmp (score self a q) best.0) (score self a q) i best)

  unfoldable pub select_with_context :
      Env → LoadCacheAware → List String → RequestContext → Outcome ℕ
  unfolding get_affinity scan
  select_with_context env self workers ctx =
      let n = length workers in
      let affinity = get_affinity self.cache_dir env.now ctx.prefix_key ctx.session_id n in
      let chosen = do
        best ← scan self affinity n 0 (f.neg_infinity, [])
        k ← gen_range env 0 (length best.1)
        unwrap (get_elem? best.1 k)
      in if n == 1 then ret 0 else chosen

  unfoldable pub record_routing : Env → LoadCacheAware → RequestContext → ℕ → LoadCacheAware
  unfolding record_entry
  record_routing env self ctx worker_idx = record self {
    cache_dir = record_entry self.cache_dir env.now ctx.prefix_key ctx.session_id worker_idx;
  }
