-- ===== src/Vehicle/Sensors/Chassis/Arithmetic.antt =====
-- What vehicle_client/sensors/chassis.cc does with a `double`: three constants, a sum, a quotient, a
-- comparison and the conversion to int. The arithmetic is the processor's, so it is a parameter, with
-- the laws of IEEE 754 for the numbers that the loop meets.
use Prim.Native.Nat.{◌/◌}
use whl_air.Base.{
  ℕ, ◌+◌, ◌≤◌, ◌≡◌, refl, Bool, true, false, not, Option, none, some, ltb, eqb, if◌then◌else◌,
  arith,
}
use whl_air.Base.Int.{ℤ, pos}

-- What the loop needs of it: the conversion to int is none where C++ leaves it undefined, `exceeds`
-- is `>`, and the constants are 0.0, 0.1, 10.0 and 2.0.
pub record Arithmetic {ℓ} (W : Type ℓ) : Type ℓ where
  pub to_int : W → Option ℤ
  pub exceeds : W → W → Bool
  pub at_most : W → W → Bool
  pub plus : W → W → W
  pub over : W → W → W
  pub nought : W
  pub tenth : W
  pub limit : W
  pub two : W

module _ {ℓ} {W : Type ℓ} ⦃a : Arithmetic W⦄ where
  -- `<=` holds.
  abbrev pub AtMost : W → W → Type 0
  AtMost x y = a.at_most x y ≡ true

  -- Neither side of a `<=` that holds is NaN.
  abbrev pub IsNumber : W → Type 0
  IsNumber x = AtMost x x

-- Rounding keeps an order, and so do the quotient by 2.0 and the conversion; 0.0 / 2.0 is 0.0 and
-- 10.0 / 2.0 is 5.0, both of them exact.
pub record IsIeee {ℓ} (W : Type ℓ) ⦃a : Arithmetic W⦄ : Type ℓ where
  pub nought_halved : a.to_int (a.over a.nought a.two) ≡ some (pos 0)
  pub limit_halved : a.to_int (a.over a.limit a.two) ≡ some (pos 5)
  pub constants : AtMost a.nought a.limit
  pub plus_grows : (x : W) → AtMost a.nought x → AtMost x a.limit → AtMost x (a.plus x a.tenth)
  pub over_mono : (x y : W) → AtMost x y → AtMost (a.over x a.two) (a.over y a.two)
  pub to_int_mono :
      (x y z : W) (low high : ℕ)
      → AtMost x y
      → AtMost y z
      → a.to_int x ≡ some (pos low)
      → a.to_int z ≡ some (pos high)
      → (n : ℕ) × (a.to_int y ≡ some (pos n)) × (low ≤ n) × (n ≤ high)
  pub numbers : (x y : W) → AtMost x y → IsNumber x × IsNumber y
  pub chain : (x y z : W) → AtMost x y → AtMost y z → AtMost x z
  pub exceeds-not-at_most :
      (x y : W) → IsNumber x → IsNumber y → a.exceeds x y ≡ not (a.at_most x y)

-- The laws can be met: numbers that are kept in twentieths, with none for NaN. A quotient by anything
-- but 2.0 is NaN here.
abbrev pub Twentieths : Type 0
Twentieths = Option ℕ

abbrev sum : Twentieths → Twentieths → Twentieths
sum (some a) (some b) = some (a + b)
sum (some a) none = none
sum none b = none

abbrev half : Twentieths → Twentieths → Twentieths
half (some a) (some b) = if eqb b 40 then some (a / 2) else none
half (some a) none = none
half none b = none

abbrev at_most : Twentieths → Twentieths → Bool
at_most (some a) (some b) = not (ltb b a)
at_most (some a) none = false
at_most none b = false

abbrev below : Twentieths → Twentieths → Bool
below (some a) (some b) = ltb b a
below (some a) none = false
below none b = false

abbrev whole : Twentieths → Option ℤ
whole none = none
whole (some a) = some (pos (a / 20))

instance abbrev pub twentieths : Arithmetic Twentieths
twentieths = record {
  to_int = whole;
  exceeds = below;
  at_most = at_most;
  plus = sum;
  over = half;
  nought = some 0;
  tenth = some 2;
  limit = some 200;
  two = some 40;
}

whole_mono :
    (x y z : Twentieths) (a c : ℕ)
    → AtMost x y
    → AtMost y z
    → whole x ≡ some (pos a)
    → whole z ≡ some (pos c)
    → (b : ℕ) × (whole y ≡ some (pos b)) × (a ≤ b) × (b ≤ c)
whole_mono (some x) (some y) (some z) a c l m e f = (y / 20, refl, ground arith, ground arith)
whole_mono none y z a c l m e f = ground arith
whole_mono (some x) none z a c l m e f = ground arith
whole_mono (some x) (some y) none a c l m e f = ground arith

pub Twentieths-IsIeee : IsIeee Twentieths
Twentieths-IsIeee = record {
  nought_halved = refl;
  limit_halved = refl;
  constants = refl;
  plus_grows = ground arith;
  over_mono = ground arith;
  to_int_mono = whole_mono;
  numbers = ground arith;
  chain = ground arith;
  exceeds-not-at_most = ground arith;
}
