-- ===== src/Base/Float.antt =====
-- What the frontend uses of JavaScript's numbers where they are not integers: a comparison and four
-- operations, whose rounding is left open.
use mathlib.Core.Path.{◌≡◌, refl}
use mathlib.Core.Bool.{Bool, true, false}
use Prim.Native.Nat.{ℕ, ◌+◌, ◌-◌, ◌*◌, ◌/◌, ◌≤◌, ◌<◌}
use native.Mathlib.Nat.{div_self, div-mul-le_self, le-div_iff_mul-le}
use native.Mathlib.Omega.{arith}
use wolkvorm.Base.Tests.{ltb}

pub record Float {ℓ} (N : Type ℓ) : Type ℓ where
  pub lt : N → N → Bool
  pub plus : N → N → N
  pub minus : N → N → N
  pub times : N → N → N
  pub over : N → N → N
  pub numeral : ℕ → N

-- No numeral is below a smaller one.
pub record IsCounted {ℓ} (N : Type ℓ) ⦃f : Float N⦄ : Type ℓ where
  pub numeral-not_lt : (m n : ℕ) → n ≤ m → f.lt (f.numeral m) (f.numeral n) ≡ false

-- What IEEE 754 says of them away from NaN: of two numbers one is not below the other; rounding
-- keeps the order of quotients by a number above 0 and of products with 100; 1 and 100 are exact, and
-- a number above 0 divided by itself is 1.
pub record IsRounded {ℓ} (N : Type ℓ) ⦃f : Float N⦄ : Type ℓ where
  pub lt_irrefl : (x : N) → f.lt x x ≡ false
  pub lt_asym : (x y : N) → f.lt x y ≡ true → f.lt y x ≡ false
  pub not_lt_trans : (x y z : N) → f.lt x y ≡ false → f.lt y z ≡ false → f.lt x z ≡ false
  pub lt-of_lt-not_lt : (x y z : N) → f.lt x y ≡ true → f.lt z y ≡ false → f.lt x z ≡ true
  pub one_positive : f.lt (f.numeral 0) (f.numeral 1) ≡ true
  pub over_mono :
      (x y m : N)
      → f.lt (f.numeral 0) m ≡ true
      → f.lt y x ≡ false
      → f.lt (f.over y m) (f.over x m) ≡ false
  pub over_self : (m : N) → f.lt (f.numeral 0) m ≡ true → f.over m m ≡ f.numeral 1
  pub times_mono :
      (x y : N)
      → f.lt y x ≡ false
      → f.lt (f.times y (f.numeral 100)) (f.times x (f.numeral 100)) ≡ false
  pub one_times : f.times (f.numeral 1) (f.numeral 100) ≡ f.numeral 100

-- Whole numbers, with truncated quotients.
instance abbrev pub whole_float : Float ℕ
whole_float = record {
  lt = ltb;
  plus = ◌+◌;
  minus = ◌-◌;
  times = ◌*◌;
  over = ◌/◌;
  numeral = λ n. n;
}

div_mono : (x y m : ℕ) → 0 < m → x ≤ y → x / m ≤ y / m
div_mono x y m p h = (le-div_iff_mul-le p).1 (omega (arith, div-mul-le_self x m))

pub ℕ-IsRounded : IsRounded ℕ
ℕ-IsRounded = record {
  lt_irrefl = λ x. ground arith;
  lt_asym = λ x y h. ground arith;
  not_lt_trans = λ x y z h k. ground arith;
  lt-of_lt-not_lt = λ x y z h k. ground arith;
  one_positive = refl;
  over_mono = λ x y m p h. ground (arith, div_mono x y m);
  over_self = λ m h. div_self (ground arith);
  times_mono = λ x y h. ground arith;
  one_times = refl;
}

pub ℕ-IsCounted : IsCounted ℕ
ℕ-IsCounted = record { numeral-not_lt = λ m n h. ground arith }
