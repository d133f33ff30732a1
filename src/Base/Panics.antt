-- ===== src/Base/Panics.antt =====
-- What a Rust function that may panic comes to: a value, or a panic that ends the task.
use mathlib.Core.Path.{◌≡◌, refl, ap, ◌∙◌}
use mathlib.Core.Bool.{Bool, true, false}
use mathlib.Core.Logic.{◌⊎◌, inl, inr}
use mathlib.Core.Option.{Option, none, some}

pub data Outcome {ℓ} (A : Type ℓ) : Type ℓ where
  ret : A → Outcome A
  panic : Outcome A

infixl 5 ◌>>=◌ ◌>>◌
abbrev pub ◌>>=◌ {ℓ κ} : {A : Type ℓ} {B : Type κ} → Outcome A → (A → Outcome B) → Outcome B
ret a >>= f = f a
panic >>= f = panic

abbrev pub ◌>>◌ {ℓ} : {B : Type ℓ} → Outcome (Unit {0}) → Outcome B → Outcome B
m >> k = m >>= λ _. k

-- `assert!(test)`.
abbrev pub assert : Bool → Outcome (Unit {0})
assert true = ret tt
assert false = panic

-- `unwrap`, and an index into a slice: `none` panics.
abbrev pub unwrap {ℓ} : {A : Type ℓ} → Option A → Outcome A
unwrap none = panic
unwrap (some a) = ret a

Outcome-cases {ℓ} : {A : Type ℓ} (m : Outcome A) → (m ≡ panic) ⊎ ((a : A) × (m ≡ ret a))
Outcome-cases (ret a) = inr (a, refl)
Outcome-cases panic = inl refl

pub >>=-eq-ret {ℓ κ} :
    {A : Type ℓ} {B : Type κ} (m : Outcome A) (f : A → Outcome B) {b : B}
    → (m >>= f) ≡ ret b
    → (a : A) × (m ≡ ret a) × (f a ≡ ret b)
>>=-eq-ret (ret a) f h = (a, refl, h)
>>=-eq-ret panic f h = cc

pub unwrap-eq-ret {ℓ} : {A : Type ℓ} (o : Option A) {a : A} → unwrap o ≡ ret a → o ≡ some a
unwrap-eq-ret none h = cc
unwrap-eq-ret (some a) h = cc

pub >>=-ret {ℓ κ μ} :
    {A : Type ℓ} {B : Type κ} {C : Type μ} (m : Outcome A) (g : A → B) (f : B → Outcome C)
    → ((m >>= λ a. ret (g a)) >>= f) ≡ (m >>= λ a. f (g a))
>>=-ret (ret a) g f = refl
>>=-ret panic g f = refl

pub ret_eq {ℓ} : {A : Type ℓ} {a b : A} → ret a ≡ ret b → a ≡ b
ret_eq h = cc

pub >>=-assoc {ℓ κ μ} :
    {A : Type ℓ} {B : Type κ} {C : Type μ} (m : Outcome A) (f : A → Outcome B) (g : B → Outcome C)
    → ((m >>= f) >>= g) ≡ (m >>= λ a. f a >>= g)
>>=-assoc (ret a) f g = refl
>>=-assoc panic f g = refl

-- A step that returns, in front of the rest of a computation.
pub after_ret {ℓ κ} :
    {A : Type ℓ} {B : Type κ} (m : Outcome A) (f : A → Outcome B) {a : A} {r : Outcome B}
    → m ≡ ret a
    → f a ≡ r
    → (m >>= f) ≡ r
after_ret m f e rest = ap (λ x. x >>= f) e ∙ rest

>>=-panic {ℓ κ} : {A : Type ℓ} {B : Type κ} (m : Outcome A) → ◌>>=◌ {B = B} m (λ _. panic) ≡ panic
>>=-panic (ret a) = refl
>>=-panic panic = refl
