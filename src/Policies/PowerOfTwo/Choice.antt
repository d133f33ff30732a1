-- ===== src/Policies/PowerOfTwo/Choice.antt =====
-- What PowerOfTwo::select picks.
use tokendog.Base.{
  ℕ, ◌≤◌, ◌<◌, ◌≡◌, refl, ◌⊎◌, inl, inr, String, List, some, arith, ret, length, get_elem?, leb,
  ◌==◌, get_elem?-some, Bool-cases, false,
}
use tokendog.Base.Env.{Env}
use tokendog.Policies.PowerOfTwo.{PowerOfTwo, select}

-- With a counter for each worker the selection returns one of the two drawn workers, and neither
-- of the two has fewer requests than it.
pub select_lighter :
    (env : Env) (self : PowerOfTwo) (workers : List String)
    → 0 < length workers
    → length workers ≤ length self.active
    → (r m a b : ℕ) × (select env self workers ≡ ret r)
      × (r < length workers)
      × ((r ≡ env.draw 0 (length workers)) ⊎ (r ≡ env.draw 1 (length workers)))
      × (get_elem? self.active r ≡ some m)
      × (get_elem? self.active (env.draw 0 (length workers)) ≡ some a)
      × (get_elem? self.active (env.draw 1 (length workers)) ≡ some b)
      × (m ≤ a)
      × (m ≤ b)
unfolding select
select_lighter env self workers pos fits =
    let n = length workers in
    let i = env.draw 0 n in
    let j = env.draw 1 n in
    let i_lt = env.draw_lt 0 n pos in
    let j_lt = env.draw_lt 1 n pos in
    let (a, at_i) = get_elem?-some self.active i (omega arith) in
    let (b, at_j) = get_elem?-some self.active j (omega arith) in
    let test : (n == 0) ≡ false = ground arith in
    elim (Bool-cases (leb a b)) [
      | inl le ↦ (
        i,
        a,
        a,
        b,
        rw (test, at_i, at_j, le),
        i_lt,
        inl refl,
        at_i,
        at_i,
        at_j,
        omega arith,
        ground arith,
      )
      | inr gt ↦ (
        j,
        b,
        a,
        b,
        rw (test, at_i, at_j, gt),
        j_lt,
        inr refl,
        at_j,
        at_i,
        at_j,
        ground arith,
        omega arith,
      )
    ]
