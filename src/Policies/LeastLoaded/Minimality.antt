-- ===== src/Policies/LeastLoaded/Minimality.antt =====
-- What LeastLoaded::select picks: when it finds the shortest queue, and when it does not.
use tokendog.Base.{
  some_eq, eq_or_lt, ℕ, zero, suc, ◌+◌, ◌-◌, ◌≤◌, ◌<◌, ◌≡◌, refl, ◌⊎◌, inl, inr, String, List, some,
  arith, ret, length, get_elem?, ltb, get_elem?-some, Bool-cases, ltb→lt, sym, ◌∙◌, false, subst,
  ◌==◌,
}
use tokendog.Base.Env.{Env}
use tokendog.Policies.LeastLoaded.{LeastLoaded, scan, select}

-- No counter of the indices `i..i + k` is below `m`.
abbrev pub Floor : List ℕ → ℕ → ℕ → ℕ → Type 0
Floor active i k m = (j q : ℕ) → i ≤ j → j < i + k → get_elem? active j ≡ some q → m ≤ q

-- The worker `r` is one of `i..i + k`, and its counter is the lowest of these and below `least`.
abbrev pub IsImproved : List ℕ → ℕ → ℕ → ℕ → ℕ → Type 0
IsImproved active i k least r =
    (m : ℕ) × (get_elem? active r ≡ some m)
    × (m < least)
    × (i ≤ r)
    × (r < i + k)
    × Floor active i k m

abbrev pub Scanned : List ℕ → ℕ → ℕ → ℕ → ℕ → ℕ → Type 0
Scanned active i k best least r =
    ((r ≡ best) × Floor active i k least) ⊎ IsImproved active i k least r

Floor-extend :
    (active : List ℕ) (i k m q : ℕ)
    → get_elem? active i ≡ some q
    → m ≤ q
    → Floor active (i + 1) k m
    → Floor active i (suc k) m
Floor-extend active i k m q e h rest j p lo hi at = elim (eq_or_lt i j lo) [
  | inl same ↦
      let eq : q ≡ p = some_eq (sym e ∙ subst (λ x. get_elem? active x ≡ some p) same at) in
      omega arith
  | inr later ↦ rest j p (omega arith) (omega arith) at
]

scan-Scanned :
    (active : List ℕ) (k i best least : ℕ)
    → i + k ≤ length active
    → (r : ℕ) × (scan active k i best least ≡ ret r) × Scanned active i k best least r
unfolding scan
scan-Scanned active zero i best least h =
    (best, refl, inl (refl, λ j q lo hi at. absurd (omega arith)))
scan-Scanned active (suc k) i best least h =
    let (q, e) = get_elem?-some active i (omega arith) in
    elim (Bool-cases (ltb q least)) [
      | inl less ↦
          let (r, run, found) = scan-Scanned active k (i + 1) i q (omega arith) in
          (r, rw (e, less) run, inr (lowered q e (ltb→lt q least less) r found))
      | inr more ↦
          let (r, run, found) = scan-Scanned active k (i + 1) best least (omega arith) in
          (r, rw (e, more) run, kept q e (ground arith) r found)
    ]
  where
    lowered :
        (q : ℕ)
        → get_elem? active i ≡ some q
        → q < least
        → (r : ℕ) → Scanned active (i + 1) k i q r
        → IsImproved active i (suc k) least r
    lowered q e less r (inl (same, floor)) = (
      q,
      rw same e,
      less,
      omega arith,
      omega arith,
      Floor-extend active i k q q e (omega arith) floor,
    )
    lowered q e less r (inr (m, at, below, lo, hi, floor)) = (
      m,
      at,
      omega arith,
      omega arith,
      omega arith,
      Floor-extend active i k m q e (omega arith) floor,
    )

    kept :
        (q : ℕ)
        → get_elem? active i ≡ some q
        → least ≤ q
        → (r : ℕ) → Scanned active (i + 1) k best least r
        → Scanned active i (suc k) best least r
    kept q e more r (inl (same, floor)) = inl (same, Floor-extend active i k least q e more floor)
    kept q e more r (inr (m, at, below, lo, hi, floor)) =
        inr (
          m,
          at,
          below,
          omega arith,
          omega arith,
          Floor-extend active i k m q e (omega arith) floor,
        )

module _ (env : Env) (self : LeastLoaded) (workers : List String) where
  select-Scanned :
      0 < length workers
      → length workers ≤ length self.active
      → (first r : ℕ) × (get_elem? self.active 0 ≡ some first)
        × (select env self workers ≡ ret r)
        × Scanned self.active 1 (length workers - 1) (env.draw 0 (length workers)) first r
  unfolding select
  select-Scanned pos fits =
      let (first, e) = get_elem?-some self.active 0 (omega arith) in
      let (r, run, found) =
        scan-Scanned self.active (length workers - 1) 1 (env.draw 0 (length workers)) first
          (omega arith) in
      let test : (length workers == 0) ≡ false = ground arith in
      (first, r, e, rw (test, e) run, found)

  -- If some worker has fewer requests than worker 0, the selection returns, and no worker has fewer
  -- requests than the one it returns.
  pub select-least :
      (i q first : ℕ)
      → length workers ≤ length self.active
      → 0 < i
      → i < length workers
      → get_elem? self.active i ≡ some q
      → get_elem? self.active 0 ≡ some first
      → q < first
      → (r m : ℕ) × (select env self workers ≡ ret r)
        × (r < length workers)
        × (get_elem? self.active r ≡ some m)
        × Floor self.active 0 (length workers) m
  select-least i q first fits pos lt at at_0 less =
      let (first', r, e, run, found) = select-Scanned (omega arith) fits in
      let same : first' ≡ first = some_eq (sym e ∙ at_0) in improved first' r run same found
    where
      improved :
          (first' r : ℕ)
          → select env self workers ≡ ret r
          → first' ≡ first
          → Scanned self.active 1 (length workers - 1) (env.draw 0 (length workers)) first' r
          → (r m : ℕ) × (select env self workers ≡ ret r)
            × (r < length workers)
            × (get_elem? self.active r ≡ some m)
            × Floor self.active 0 (length workers) m
      improved first' r run same (inl (drawn, floor)) =
          absurd (let below : first' ≤ q = floor i q (omega arith) (omega arith) at in omega arith)
      improved first' r run same (inr (m, there, below, lo, hi, floor)) =
          (r, m, run, omega arith, there, λ j p zero-le j-lt at_j. lowest j p j-lt at_j)
        where
          lowest : (j p : ℕ) → j < 0 + length workers → get_elem? self.active j ≡ some p → m ≤ p
          lowest zero p h at_j = let eq : p ≡ first = some_eq (sym at_j ∙ at_0) in omega arith
          lowest (suc j) p h at_j = floor (suc j) p (omega arith) (omega arith) at_j

  -- If no worker has fewer requests than worker 0, the selection returns the random draw it began
  -- with, whatever the load of the drawn worker.
  pub select_first_least :
      (first : ℕ)
      → 0 < length workers
      → length workers ≤ length self.active
      → get_elem? self.active 0 ≡ some first
      → Floor self.active 0 (length workers) first
      → select env self workers ≡ ret (env.draw 0 (length workers))
  select_first_least first pos fits at_0 floor =
      let (first', r, e, run, found) = select-Scanned pos fits in
      let same : first' ≡ first = some_eq (sym e ∙ at_0) in draws first' r run same found
    where
      draws :
          (first' r : ℕ)
          → select env self workers ≡ ret r
          → first' ≡ first
          → Scanned self.active 1 (length workers - 1) (env.draw 0 (length workers)) first' r
          → select env self workers ≡ ret (env.draw 0 (length workers))
      draws first' r run same (inl (chosen, _)) = rw chosen at run
      draws first' r run same (inr (m, there, below, lo, hi, _)) =
          absurd
            (let above : first ≤ m = floor r m (omega arith) (omega arith) there in omega arith)
