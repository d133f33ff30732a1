-- ===== src/Tests/Samples.antt =====
-- The surroundings, floating-point numbers, workers and contexts that the examples share.
use Prim.Native.Nat.{Ordering}
use tokendog.Base.{
  ℕ, ◌+◌, ◌*◌, ◌/◌, ◌^◌, ◌-◌, ◌<◌, ◌≡◌, ◌⊎◌, inl, inr, String, List, [], ◌∷◌, Option, none, some,
  arith, ltb, ◌==◌, if◌then◌else◌, true, false,
}
use tokendog.Base.Env.{Env}
use tokendog.Policies.{RequestContext}
use tokendog.Policies.F64.{F64, AtLeast, IsOrdered}
use tokendog.Worker.{Worker}

-- Each draw is 0; the clock stands at 100.
abbrev pub quiet : Env
quiet = record {
  draw = λ k n. 0;
  draw_lt = λ k n h. h;
  random = 0;
  random_lt = omega arith;
  now = 100;
}

abbrev compare : ℕ → ℕ → Option Ordering
compare x y =
    if ltb y x then some Ordering.gt else if x == y then some Ordering.eq else some Ordering.lt

-- Tenths that stop at 0, which stands for the lowest number too.
abbrev pub tenths : F64
tenths = record {
  Carrier = ℕ;
  mul = λ x y. x * y / 10;
  sub = λ x y. x - y;
  div = λ x y. x * 10 / y;
  of_usize = λ n. n * 10;
  decimal = λ m d. m * 10 / 10 ^ d;
  neg_infinity = 0;
  partial_cmp = compare;
  from_secs_f64 = λ x. some (x * 100000000);
}

compare_number : (x : ℕ) → compare x x ≡ none → ⊥
compare_number x e = ground arith

compare_ge : (x y : ℕ) → y < x + 1 → AtLeast tenths x y
compare_ge x y h = ground arith

compare_ge_inv : (x y : ℕ) → AtLeast tenths x y → y < x + 1
compare_ge_inv x y (inl e) = ground arith
compare_ge_inv x y (inr e) = ground arith

compare_split : (x y : ℕ) → AtLeast tenths x y ⊎ (compare x y ≡ some Ordering.lt)
compare_split x y = ground arith

pub tenths-IsOrdered : IsOrdered tenths
tenths-IsOrdered = record {
  number_neg_infinity = compare_number 0;
  at_least_neg_infinity = λ x n. compare_ge x 0 (omega arith);
  comparable = λ x y n m. compare_split x y;
  at_least_of_lt = λ x y e. compare_ge y x (ground arith);
  at_least_of_eq = λ x y e. compare_ge y x (ground arith);
  at_least_trans = λ x y z h k.
      let a : y < x + 1 = compare_ge_inv x y h in
      let b : z < y + 1 = compare_ge_inv y z k in compare_ge x z (omega arith);
}

abbrev pub two_urls : List String
two_urls = "http://a:8000" ∷ "http://b:8000" ∷ []

abbrev pub three_urls : List String
three_urls = "http://a:8000" ∷ "http://b:8000" ∷ "http://c:8000" ∷ []

abbrev pub alice : RequestContext
alice = record { session_id = "alice"; prefix_key = "hello" }

-- The first worker is down.
abbrev pub pool : List Worker
pool =
    record { url = "http://a:8000"; healthy = false }
    ∷ record { url = "http://b:8000"; healthy = true }
    ∷ record { url = "http://c:8000"; healthy = true }
    ∷ []

abbrev pub down : List Worker
down = record { url = "http://a:8000"; healthy = false } ∷ []
