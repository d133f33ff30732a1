-- ===== src/Policies/Shortest/Minimum.antt =====
-- When Join-Shortest-Queue finds a shortest queue, and when it panics.
use tokendog.Base.{
  some_eq, eq_or_lt, ℕ, zero, suc, ◌+◌, ◌≤◌, ◌<◌, ◌≡◌, refl, ◌⊎◌, inl, inr, List, [], ◌∷◌, some,
  arith, ret, panic, length, get_elem?, min, ◌==◌, get_elem?-some, Bool-cases, All, All-get_elem?,
  subst, false, sym, ◌∙◌,
}
use tokendog.Base.Env.{Env}
use tokendog.Policies.Shortest.{minimum, min_load, tied_from, jsq_fallback}

minimum-le : (least : ℕ) (active : List ℕ) → minimum least active ≤ least
minimum-le least [] = omega arith
minimum-le least (q ∷ active) = omega (arith, minimum-le (min least q) active)

minimum-le-get_elem? :
    (least : ℕ) (active : List ℕ) (j q : ℕ) → get_elem? active j ≡ some q → minimum least active ≤ q
minimum-le-get_elem? least [] j q e = absurd (ground arith)
minimum-le-get_elem? least (p ∷ active) zero q e =
    let same : p ≡ q = ground arith in omega (arith, minimum-le (min least p) active)
minimum-le-get_elem? least (p ∷ active) (suc j) q e =
    minimum-le-get_elem? (min least p) active j q e

-- The minimum is the start value, or stands in the list.
minimum_attained :
    (least : ℕ) (active : List ℕ)
    → (minimum least active ≡ least)
      ⊎ ((j : ℕ) × (get_elem? active j ≡ some (minimum least active)))
minimum_attained least [] = inl refl
minimum_attained least (q ∷ active) = elim (minimum_attained (min least q) active) [
  | inl same ↦ here same (le_cases least q)
  | inr (j, e) ↦ inr (suc j, e)
]
  where
    le_cases : (a b : ℕ) → (min a b ≡ a) ⊎ (min a b ≡ b)
    le_cases a b = omega arith

    here :
        minimum (min least q) active ≡ min least q
        → (min least q ≡ least) ⊎ (min least q ≡ q)
        → (minimum least (q ∷ active) ≡ least)
          ⊎ ((j : ℕ) × (get_elem? (q ∷ active) j ≡ some (minimum least (q ∷ active))))
    here same (inl a) = inl (same ∙ a)
    here same (inr b) = inr (0, rw (same ∙ b))

min_load-le : (active : List ℕ) (j q : ℕ) → get_elem? active j ≡ some q → min_load active ≤ q
unfolding min_load
min_load-le [] j q e = omega arith
min_load-le (p ∷ active) zero q e =
    let same : p ≡ q = ground arith in omega (arith, minimum-le p active)
min_load-le (p ∷ active) (suc j) q e = minimum-le-get_elem? p active j q e

min_load_attained :
    (active : List ℕ) → 0 < length active → (j : ℕ) × (get_elem? active j ≡ some (min_load active))
unfolding min_load
min_load_attained [] h = elim h [ ]
min_load_attained (q ∷ active) h = elim (minimum_attained q active) [
  | inl same ↦ (0, rw same)
  | inr (j, e) ↦ (suc j, e)
]

module _ (active : List ℕ) (m : ℕ) where
  -- A worker among `i..i + k` whose counter is `m`.
  abbrev IsTied : ℕ → ℕ → ℕ → Type 0
  IsTied i k t = (i ≤ t) × (t < i + k) × (get_elem? active t ≡ some m)

  All-IsTied_weaken :
      (i k : ℕ) (ts : List ℕ) → All (IsTied (i + 1) k) ts → All (IsTied i (suc k)) ts
  All-IsTied_weaken i k [] h = tt
  All-IsTied_weaken i k (t ∷ ts) h =
      ((omega (arith, h.0.0), omega (arith, h.0.1), h.0.2), All-IsTied_weaken i k ts h.1)

  tied_from-IsTied :
      (k i : ℕ)
      → i + k ≤ length active
      → (ts : List ℕ) × (tied_from active m k i ≡ ret ts)
        × All (IsTied i k) ts
        × ((ts ≡ []) → (j q : ℕ) → i ≤ j → j < i + k → get_elem? active j ≡ some q → q ≡ m → ⊥)
  unfolding tied_from
  tied_from-IsTied zero i h = ([], refl, tt, λ _ j q lo hi at same. absurd (omega arith))
  tied_from-IsTied (suc k) i h =
      let (q, e) = get_elem?-some active i (omega arith) in
      let (ts, run, tied, missing) = tied_from-IsTied k (i + 1) (omega arith) in
      elim (Bool-cases (q == m)) [
        | inl hit ↦ (
          i ∷ ts,
          rw (e, run, hit),
          (
            (omega arith, omega arith, e ∙ (let same : q ≡ m = ground arith in rw same)),
            All-IsTied_weaken i k ts tied,
          ),
          λ empty. absurd (ground arith),
        )
        | inr miss ↦ (
          ts,
          rw (e, run, miss),
          All-IsTied_weaken i k ts tied,
          λ empty j p lo hi at same. elim (eq_or_lt i j lo) [
            | inl first ↦
                let equal : q ≡ p =
                  some_eq (sym e ∙ subst (λ x. get_elem? active x ≡ some p) first at) in
                ground arith
            | inr later ↦ missing empty j p (omega arith) (omega arith) at same
          ],
        )
      ]

module _ (env : Env) (active : List ℕ) (n : ℕ) where
  -- If one of the first `n` workers has the lowest counter of all, the fallback returns a worker
  -- among them that has it.
  pub jsq_fallback_shortest :
      (j : ℕ)
      → n ≤ length active
      → j < n
      → get_elem? active j ≡ some (min_load active)
      → (r : ℕ) × (jsq_fallback env active n ≡ ret r)
        × (r < n)
        × (get_elem? active r ≡ some (min_load active))
  unfolding jsq_fallback
  jsq_fallback_shortest j fits lt at =
      let (ts, run, tied, missing) = tied_from-IsTied active (min_load active) n 0 (omega arith) in
      drawn ts run tied
        (λ empty. missing empty j (min_load active) (omega arith) (omega arith) at refl)
    where
      drawn :
          (ts : List ℕ)
          → tied_from active (min_load active) n 0 ≡ ret ts
          → All (IsTied active (min_load active) 0 n) ts
          → ((ts ≡ []) → ⊥)
          → (r : ℕ) × (jsq_fallback env active n ≡ ret r)
            × (r < n)
            × (get_elem? active r ≡ some (min_load active))
      drawn [] run tied some_tied = absurd (some_tied refl)
      drawn (t ∷ ts) run tied some_tied =
          let (r, e) =
            get_elem?-some (t ∷ ts) (env.draw 0 (length (t ∷ ts)))
              (env.draw_lt 0 _ (omega arith)) in
          let (lo, hi, there) =
            All-get_elem? (IsTied active (min_load active) 0 n) (t ∷ ts) _ tied e in
          let test : (length (t ∷ ts) == 0) ≡ false = ground arith in
          (r, rw (run, jsq_fallback, test, e), omega arith, there)

  -- If every one of the first `n` workers has more requests than the lowest counter of all, which
  -- then belongs to a later slot, the fallback panics.
  pub jsq_fallback_panics :
      n ≤ length active
      → ((j q : ℕ) → j < n → get_elem? active j ≡ some q → min_load active < q)
      → jsq_fallback env active n ≡ panic
  unfolding jsq_fallback
  jsq_fallback_panics fits above =
      let (ts, run, tied, missing) = tied_from-IsTied active (min_load active) n 0 (omega arith) in
      none_tied ts run tied
    where
      none_tied :
          (ts : List ℕ)
          → tied_from active (min_load active) n 0 ≡ ret ts
          → All (IsTied active (min_load active) 0 n) ts
          → jsq_fallback env active n ≡ panic
      none_tied [] run tied = rw (run, jsq_fallback)
      none_tied (t ∷ ts) run tied = absurd (
          let less : min_load active < min_load active =
            above t _ (omega (arith, tied.0.1)) tied.0.2 in
          omega arith)
