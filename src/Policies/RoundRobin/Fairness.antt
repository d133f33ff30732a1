-- ===== src/Policies/RoundRobin/Fairness.antt =====
-- RoundRobin visits the workers in turn.
use native.Mathlib.Nat.{mod-lt, mod-eq_of_lt, mod-add-mod, mod-eq-sub-mod}
use tokendog.Base.{
  ret_eq, ℕ, zero, suc, ◌+◌, ◌-◌, ◌%◌, ◌≤◌, ◌<◌, ◌≡◌, ◌⊎◌, inl, inr, ap, ◌∙◌, sym, String, List,
  arith, Outcome, ret, ◌>>=◌, length, ltb, ◌==◌, if◌then◌else◌, false,
}
use tokendog.Base.Words.{word_mod, wrapping_inc}
use tokendog.Policies.RoundRobin.{RoundRobin, select}

-- The index that the selection after `k` others returns.
pub nth_selection : ℕ → RoundRobin → List String → Outcome ℕ
nth_selection zero self workers = do chosen ← select self workers; ret chosen.0
nth_selection (suc k) self workers = do
  chosen ← select self workers
  nth_selection k chosen.1 workers

-- With at least one worker every selection returns; the counter that it reduces wraps at 2 ^ 64.
nth_selection_lem :
    (k : ℕ) (self : RoundRobin) (workers : List String)
    → 0 < length workers
    → self.counter < word_mod
    → nth_selection k self workers ≡ ret ((self.counter + k) % word_mod % length workers)
unfolding nth_selection select
nth_selection_lem zero self workers pos word =
    let test : (length workers == 0) ≡ false = ground arith in
    let same : self.counter ≡ (self.counter + 0) % word_mod = omega arith in
    rw test (ap (λ (c : ℕ). ret (c % length workers)) same)
nth_selection_lem (suc k) self workers pos word =
    let test : (length workers == 0) ≡ false = ground arith in
    let same : (wrapping_inc self.counter + k) % word_mod ≡ (self.counter + suc k) % word_mod =
      omega arith in
    rw test (
      nth_selection_lem k (record { counter = wrapping_inc self.counter }) workers pos (omega arith)
      ∙ ap (λ (c : ℕ). ret (c % length workers)) same)

-- The turn of worker `i`, counted from the counter `c`.
abbrev turn : ℕ → ℕ → ℕ → ℕ
turn c n i = if ltb i (c % n) then n + i - c % n else i - c % n

-- The sum of two numbers below `n` is reduced by one subtraction at most.
mod_sum :
    (r k n : ℕ)
    → r < n
    → k < n
    → ((r + k < n) × ((r + k) % n ≡ r + k)) ⊎ ((n ≤ r + k) × ((r + k) % n ≡ r + k - n))
mod_sum r k n hr hk = elim (lt_or_le (r + k) n) [
  | inl less ↦ inl (less, mod-eq_of_lt less)
  | inr more ↦ inr (more, mod-eq-sub-mod more ∙ mod-eq_of_lt {n = r + k - n} {m = n} (omega arith))
]
  where
    lt_or_le : (a b : ℕ) → (a < b) ⊎ (b ≤ a)
    lt_or_le a b = omega arith

turn_lem : (c n i : ℕ) → i < n → (turn c n i < n) × ((c + turn c n i) % n ≡ i)
turn_lem c n i h =
    let r_lt : c % n < n = mod-lt c (omega arith) in
    let shift : (c % n + turn c n i) % n ≡ (c + turn c n i) % n = mod-add-mod c n (turn c n i) in
    let small : turn c n i < n = ground arith in
    elim (mod_sum (c % n) (turn c n i) n r_lt small) [
      | inl (less, e) ↦ (small, ground arith)
      | inr (more, e) ↦ (small, ground arith)
    ]

mod_unique : (c n j k : ℕ) → j < n → k < n → (c + j) % n ≡ (c + k) % n → j ≡ k
mod_unique c n j k hj hk e =
    let r_lt : c % n < n = mod-lt c (omega arith) in
    let shift_j : (c % n + j) % n ≡ (c + j) % n = mod-add-mod c n j in
    let shift_k : (c % n + k) % n ≡ (c + k) % n = mod-add-mod c n k in
    omega (arith, mod_sum (c % n) j n r_lt hj, mod_sum (c % n) k n r_lt hk)

-- While the counter does not reach 2 ^ 64, each worker is selected by exactly one of any
-- `workers.len()` consecutive selections.
pub each_worker_once :
    (self : RoundRobin) (workers : List String) (i : ℕ)
    → i < length workers
    → self.counter + length workers ≤ word_mod
    → (k : ℕ) × (k < length workers)
      × (nth_selection k self workers ≡ ret i)
      × ((j : ℕ) → j < length workers → nth_selection j self workers ≡ ret i → j ≡ k)
each_worker_once self workers i h word =
    let n = length workers in
    let k = turn self.counter n i in
    let (k_lt, at_k) = turn_lem self.counter n i h in
    (
      k,
      k_lt,
      selects k k_lt ∙ ap ret at_k,
      λ j j_lt at_j.
          mod_unique self.counter n j k j_lt k_lt (ret_eq (sym (selects j j_lt) ∙ at_j) ∙ sym at_k),
    )
  where
    selects :
        (j : ℕ)
        → j < length workers
        → nth_selection j self workers ≡ ret ((self.counter + j) % length workers)
    selects j j_lt =
        nth_selection_lem j self workers (omega arith) (omega arith)
        ∙ ap (λ (c : ℕ). ret (c % length workers))
            (mod-eq_of_lt {n = self.counter + j} {m = word_mod} (omega arith))
