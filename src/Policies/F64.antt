-- ===== src/Policies/F64.antt =====
-- The floating-point numbers that LoadCacheAware computes with. Neither Rust's f64 nor
-- Duration::from_secs_f64 is code of the repository: the type and its operations are a parameter.
use Prim.Native.Nat.{Ordering}
use tokendog.Base.{ℕ, ◌≡◌, ◌≢◌, ◌⊎◌, Option, none, some}

pub record F64 : Type 1 where
  pub Carrier : Type 0
  pub mul : Carrier → Carrier → Carrier
  pub sub : Carrier → Carrier → Carrier
  pub div : Carrier → Carrier → Carrier
  pub of_usize : ℕ → Carrier  -- `n as f64`
  pub decimal : ℕ → ℕ → Carrier  -- the literal `m / 10 ^ d`
  pub neg_infinity : Carrier
  pub partial_cmp : Carrier → Carrier → Option Ordering
  pub from_secs_f64 : Carrier → Option ℕ  -- nanoseconds; `none` is a panic

-- `x` compares with itself, so it is not NaN.
abbrev pub IsNumber : (f : F64) → f.Carrier → Type 0
IsNumber f x = f.partial_cmp x x ≢ none

-- `x` is not below `y`.
abbrev pub AtLeast : (f : F64) → f.Carrier → f.Carrier → Type 0
AtLeast f x y = (f.partial_cmp x y ≡ some Ordering.gt) ⊎ (f.partial_cmp x y ≡ some Ordering.eq)

-- What IEEE 754 says of comparing numbers that are not NaN.
pub record IsOrdered (f : F64) : Type 0 where
  pub number_neg_infinity : IsNumber f f.neg_infinity
  pub at_least_neg_infinity : (x : f.Carrier) → IsNumber f x → AtLeast f x f.neg_infinity
  pub comparable :
      (x y : f.Carrier)
      → IsNumber f x
      → IsNumber f y
      → AtLeast f x y ⊎ (f.partial_cmp x y ≡ some Ordering.lt)
  pub at_least_of_lt : (x y : f.Carrier) → f.partial_cmp x y ≡ some Ordering.lt → AtLeast f y x
  pub at_least_of_eq : (x y : f.Carrier) → f.partial_cmp x y ≡ some Ordering.eq → AtLeast f y x
  pub at_least_trans : (x y z : f.Carrier) → AtLeast f x y → AtLeast f y z → AtLeast f x z
