-- ===== src/Policies/Active.antt =====
-- `active: Vec<AtomicUsize>`, the in-flight counters of the policies that track load.
pub mod Ledger
use tokendog.Base.{
  ℕ, zero, suc, ◌≤◌, ◌<◌, ◌≡◌, ap, List, [], ◌∷◌, some, arith, Outcome, ret, panic, unwrap, ◌>>=◌,
  length, get_elem?, set, replicate, All, length-set, get_elem?-some, get_elem?-none,
  lt-length_of_get_elem?, get_elem?-set_self, set-get_elem?, set-set,
}
use tokendog.Base.Words.{
  word_mod, wrapping_inc, wrapping_dec, wrapping_dec-wrapping_inc, wrapping_inc_lt, wrapping_dec_lt,
}

-- `(0..worker_count).map(|_| AtomicUsize::new(0)).collect()`.
abbrev pub counters : ℕ → List ℕ
counters worker_count = replicate worker_count 0

-- `active[i].load(Ordering::Relaxed)`: an index out of bounds panics.
abbrev pub load : List ℕ → ℕ → Outcome ℕ
load active i = unwrap (get_elem? active i)

-- `active[i].fetch_add(1, Ordering::Relaxed)`.
unfoldable pub fetch_add : List ℕ → ℕ → Outcome (List ℕ)
fetch_add active i = do q ← load active i; ret (set active i (wrapping_inc q))

-- `active[i].fetch_sub(1, Ordering::Relaxed)`.
unfoldable pub fetch_sub : List ℕ → ℕ → Outcome (List ℕ)
fetch_sub active i = do q ← load active i; ret (set active i (wrapping_dec q))

-- The counters are machine words.
abbrev pub AreWords : List ℕ → Type 0
AreWords active = All (λ q. q < word_mod) active

AreWords-set :
    (active : List ℕ) (i q : ℕ) → q < word_mod → AreWords active → AreWords (set active i q)
AreWords-set [] i q h w = tt
AreWords-set (x ∷ xs) zero q h w = (h, w.1)
AreWords-set (x ∷ xs) (suc i) q h w = (w.0, AreWords-set xs i q h w.1)

get_elem?-lt :
    (active : List ℕ) (i q : ℕ) → AreWords active → get_elem? active i ≡ some q → q < word_mod
get_elem?-lt [] i q w h = absurd (ground arith)
get_elem?-lt (x ∷ xs) zero q w h = ground arith
get_elem?-lt (x ∷ xs) (suc i) q w h = get_elem?-lt xs i q w.1 h

pub AreWords-counters : (n : ℕ) → AreWords (counters n)
AreWords-counters zero = tt
AreWords-counters (suc n) = (omega arith, AreWords-counters n)

-- In range the call returns, with that one counter changed.
pub fetch_add_in_range :
    (active : List ℕ) (i : ℕ)
    → i < length active
    → (q : ℕ) × (get_elem? active i ≡ some q)
      × (fetch_add active i ≡ ret (set active i (wrapping_inc q)))
unfolding fetch_add
fetch_add_in_range active i h = let (q, e) = get_elem?-some active i h in (q, e, rw e)

pub fetch_sub_in_range :
    (active : List ℕ) (i : ℕ)
    → i < length active
    → (q : ℕ) × (get_elem? active i ≡ some q)
      × (fetch_sub active i ≡ ret (set active i (wrapping_dec q)))
unfolding fetch_sub
fetch_sub_in_range active i h = let (q, e) = get_elem?-some active i h in (q, e, rw e)

-- What a successful call did.
fetch_add_inversion :
    (active : List ℕ) (i : ℕ) {next : List ℕ}
    → fetch_add active i ≡ ret next
    → (q : ℕ) × (get_elem? active i ≡ some q) × (next ≡ set active i (wrapping_inc q))
unfolding fetch_add
fetch_add_inversion active i h = ground arith

fetch_sub_inversion :
    (active : List ℕ) (i : ℕ) {next : List ℕ}
    → fetch_sub active i ≡ ret next
    → (q : ℕ) × (get_elem? active i ≡ some q) × (next ≡ set active i (wrapping_dec q))
unfolding fetch_sub
fetch_sub_inversion active i h = ground arith

pub fetch_add-AreWords :
    (active : List ℕ) (i : ℕ) {next : List ℕ}
    → AreWords active
    → fetch_add active i ≡ ret next
    → AreWords next × (length next ≡ length active)
fetch_add-AreWords active i w h =
    let (q, e, same) = fetch_add_inversion active i h in
    rw same (AreWords-set active i _ (wrapping_inc_lt q) w, length-set active i _)

pub fetch_sub-AreWords :
    (active : List ℕ) (i : ℕ) {next : List ℕ}
    → AreWords active
    → fetch_sub active i ≡ ret next
    → AreWords next × (length next ≡ length active)
fetch_sub-AreWords active i w h =
    let (q, e, same) = fetch_sub_inversion active i h in
    rw same (AreWords-set active i _ (wrapping_dec_lt q) w, length-set active i _)

-- Ending a request that was just started restores the counters, also where the start wrapped.
pub fetch_sub-fetch_add :
    (active : List ℕ) (i : ℕ) {next : List ℕ}
    → AreWords active
    → fetch_add active i ≡ ret next
    → fetch_sub next i ≡ ret active
unfolding fetch_sub
fetch_sub-fetch_add active i w h =
    let (q, e, same) = fetch_add_inversion active i h in
    let back = wrapping_dec-wrapping_inc q (get_elem?-lt active i q w e) in
    rw
      (
        same,
        get_elem?-set_self active i (wrapping_inc q) (lt-length_of_get_elem? active i e),
        set-set active i (wrapping_inc q) (wrapping_dec (wrapping_inc q)),
        back,
      )
      (ap ret (set-get_elem? active i q e))
