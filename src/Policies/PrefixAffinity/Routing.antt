-- ===== src/Policies/PrefixAffinity/Routing.antt =====
-- Where PrefixAffinity::select_with_context routes a request.
use native.Mathlib.Nat.{mod-one}
use tokendog.Base.{
  ℕ, ◌%◌, ◌≤◌, ◌<◌, ◌≡◌, ap, ◌∙◌, sym, String, List, some, arith, ret, panic, length, get_elem?,
  ltb, ◌==◌, ◌⊎◌, refl, true, false, Bool-cases, inl, inr,
}
use tokendog.Base.Env.{Env}
use tokendog.Policies.{RequestContext}
use tokendog.Policies.Hash.{stable_hash}
use tokendog.Policies.Shortest.{min_load, jsq_fallback}
use tokendog.Policies.Shortest.Minimum.{jsq_fallback_shortest, jsq_fallback_panics}
use tokendog.Policies.PrefixAffinity.{PrefixAffinity, select_with_context}

-- The worker that a prefix hashes to.
abbrev pub preferred : List String → RequestContext → ℕ
preferred workers ctx = stable_hash ctx.prefix_key % length workers

module _ (env : Env) (self : PrefixAffinity) (workers : List String) (ctx : RequestContext) (q : ℕ)
    (at : get_elem? self.active (preferred workers ctx) ≡ some q) where
  -- Below the threshold a request goes to the worker that its prefix hashes to, whatever is drawn.
  select_with_context_preferred :
      0 < length workers
      → q < self.threshold
      → select_with_context env self workers ctx ≡ ret (preferred workers ctx)
  unfolding select_with_context
  select_with_context_preferred pos less = elim (Bool-cases (length workers == 1)) [
    | inl one ↦
        let single : length workers ≡ 1 = ground arith in
        rw one (
          ap ret (
            sym (
              ap (λ (n : ℕ). stable_hash ctx.prefix_key % n) single
              ∙ mod-one (stable_hash ctx.prefix_key))))
    | inr many ↦
        let test : (length workers == 0) ≡ false = ground arith in
        let fits : ltb q self.threshold ≡ true = ground arith in rw (many, test, at, fits)
  ]

  overloaded_falls_back :
      1 < length workers
      → self.threshold ≤ q
      → select_with_context env self workers ctx ≡ jsq_fallback env self.active (length workers)
  unfolding select_with_context
  overloaded_falls_back many full =
      let one : (length workers == 1) ≡ false = ground arith in
      let test : (length workers == 0) ≡ false = ground arith in
      let over : ltb q self.threshold ≡ false = ground arith in rw (one, test, at, over)

  pub select_with_context_overloaded :
      (j : ℕ)
      → 1 < length workers
      → length workers ≤ length self.active
      → self.threshold ≤ q
      → j < length workers
      → get_elem? self.active j ≡ some (min_load self.active)
      → (r : ℕ) × (select_with_context env self workers ctx ≡ ret r)
        × (r < length workers)
        × (get_elem? self.active r ≡ some (min_load self.active))
  select_with_context_overloaded j many fits full lt lowest =
      let (r, run, r_lt, there) =
        jsq_fallback_shortest env self.active (length workers) j fits lt lowest in
      (r, overloaded_falls_back many full ∙ run, r_lt, there)

  -- If one of the workers has the lowest counter of all, the selection returns; either the worker
  -- that the prefix hashes to is below the threshold and is the one returned, or it is not below, and
  -- the one returned is a worker that has the lowest counter of all.
  pub select_with_context_routes :
      (j : ℕ)
      → 1 < length workers
      → length workers ≤ length self.active
      → j < length workers
      → get_elem? self.active j ≡ some (min_load self.active)
      → (r : ℕ) × (select_with_context env self workers ctx ≡ ret r)
        × (((r ≡ preferred workers ctx) × (q < self.threshold))
            ⊎ ((r < length workers)
                × (get_elem? self.active r ≡ some (min_load self.active))
                × (self.threshold ≤ q)))
  select_with_context_routes j many fits lt lowest = elim (Bool-cases (ltb q self.threshold)) [
    | inl below ↦
        let less : q < self.threshold = ground arith in
        (preferred workers ctx, select_with_context_preferred (omega arith) less, inl (refl, less))
    | inr above ↦
        let full : self.threshold ≤ q = ground arith in
        let (r, run, r_lt, there) = select_with_context_overloaded j many fits full lt lowest in
        (r, run, inr (r_lt, there, full))
  ]

  -- At the threshold, if every worker has more requests than the lowest counter of all, the
  -- selection panics.
  pub select_with_context_panics :
      1 < length workers
      → length workers ≤ length self.active
      → self.threshold ≤ q
      → ((j p : ℕ)
          → j < length workers
          → get_elem? self.active j ≡ some p
          → min_load self.active < p)
      → select_with_context env self workers ctx ≡ panic
  select_with_context_panics many fits full above =
      overloaded_falls_back many full
      ∙ jsq_fallback_panics env self.active (length workers) fits above
