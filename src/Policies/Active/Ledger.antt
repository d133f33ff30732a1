-- ===== src/Policies/Active/Ledger.antt =====
-- The counters of some workers against a ledger of numbers.
use tokendog.Base.{
  ℕ, ◌<◌, ◌≡◌, ap, ◌∙◌, sym, inl, inr, ◌≢◌, List, some, arith, get_elem?, set, ◌==◌, Bool-cases,
  lt-length_of_get_elem?, get_elem?-set_self, get_elem?-set_ne,
}

-- The counters of the workers below `n` agree with the ledger.
abbrev pub Tracks : ℕ → (ℕ → ℕ) → List ℕ → Type 0
Tracks n ledger active = (j : ℕ) → j < n → get_elem? active j ≡ some (ledger j)

pub set-Tracks :
    (n i q : ℕ) (ledger ledger' : ℕ → ℕ) (active : List ℕ)
    → Tracks n ledger active
    → i < n
    → q ≡ ledger' i
    → ((j : ℕ) → j ≢ i → ledger' j ≡ ledger j)
    → Tracks n ledger' (set active i q)
set-Tracks n i q ledger ledger' active t lt here there j j_lt = elim (Bool-cases (j == i)) [
  | inl same ↦
      let e : j ≡ i = ground arith in
      rw e (get_elem?-set_self active i q (lt-length_of_get_elem? active i (t i lt)) ∙ ap some here)
  | inr other ↦
      let ne : i ≢ j = ground arith in
      get_elem?-set_ne active i j q ne ∙ (t j j_lt ∙ ap some (sym (there j (ground arith))))
]
