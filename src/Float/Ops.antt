-- ===== src/Float/Ops.antt =====
-- The floating-point numbers of the program, as an interface: every module computes with a type
-- `R` of numbers through the operations of `Float`, in the order in which the source applies them.
-- `IsOrdered` holds of the IEEE values other than NaN, with -0.0 identified with 0.0.
-- `IsMonotone` holds of IEEE arithmetic with rounding to nearest while no operation overflows.

use mmp_meridian.Prelude.{
  ℕ, suc, ◌*◌, ◌^◌, ◌≡◌, ◌↔◌, Bool, true, false, not, if◌then◌else◌, leb, List, [], ◌∷◌,
}

-- `decimal m k` is the literal m / 10^k; `round`, `pow`, `exp` are those of Python and numpy.
pub record Float (R : Type 0) : Type 0 where
  pub add : R → R → R
  pub sub : R → R → R
  pub mul : R → R → R
  pub div : R → R → R
  pub lt : R → R → Bool
  pub le : R → R → Bool
  pub eq : R → R → Bool
  pub decimal : ℕ → ℕ → R
  pub round : R → R
  pub pow : R → R → R
  pub exp : R → R

module _ {R : Type 0} ⦃f : Float R⦄ where
  open f use {add, sub, mul, div, lt, le, eq, decimal}

  abbrev pub nought : R
  nought = decimal 0 0

  abbrev pub unity : R
  unity = decimal 1 0

  -- Python's `max` and `min` of two values: the first one, unless the second is beyond it.
  abbrev pub max : R → R → R
  max a b = if lt a b then b else a

  abbrev pub min : R → R → R
  min a b = if lt b a then b else a

  -- `abs` and the unary minus
  abbrev pub neg : R → R
  neg a = sub nought a

  abbrev pub abs : R → R
  abs a = if lt a nought then neg a else a

  -- Python's `sum(xs, start)`, from the left.
  abbrev pub sum_from : R → List R → R
  sum_from start [] = start
  sum_from start (x ∷ xs) = sum_from (add start x) xs

infix 4 ◌≼◌
abbrev pub ◌≼◌ : {R : Type 0} ⦃f : Float R⦄ → R → R → Type 0
◌≼◌ ⦃f⦄ a b = f.le a b ≡ true

pub record IsOrdered (R : Type 0) ⦃f : Float R⦄ : Type 0 where
  pub le_refl : (a : R) → a ≼ a
  pub le_trans : (a b c : R) → a ≼ b → b ≼ c → a ≼ c
  pub le_antisymm : (a b : R) → a ≼ b → b ≼ a → a ≡ b
  pub lt-eq-not-le : (a b : R) → f.lt a b ≡ not (f.le b a)
  pub le_total : (a b : R) → f.le a b ≡ false → b ≼ a
  pub eq_iff : (a b : R) → (f.eq a b ≡ true) ↔ (a ≡ b)
  pub decimal_le :
      (m k n j : ℕ) → leb (m * 10 ^ j) (n * 10 ^ k) ≡ true → f.decimal m k ≼ f.decimal n j
  pub decimal_pos : (m k : ℕ) → leb k 12 ≡ true → f.lt (f.decimal 0 0) (f.decimal (suc m) k) ≡ true

-- Each operation is that of the reals, rounded by a monotone function that keeps 0 and 1.
pub record IsMonotone (R : Type 0) ⦃f : Float R⦄ : Type 0 where
  pub sub_self : (a : R) → f.sub a a ≡ f.decimal 0 0
  pub sub_mono : (a b c d : R) → a ≼ b → d ≼ c → f.sub a c ≼ f.sub b d
  pub add_mono : (a b c d : R) → a ≼ b → c ≼ d → f.add a c ≼ f.add b d
  pub add-zero : (a : R) → f.add a (f.decimal 0 0) ≡ a
  pub sub-zero : (a : R) → f.sub a (f.decimal 0 0) ≡ a
  pub mul_mono : (a b c : R) → f.decimal 0 0 ≼ c → a ≼ b → f.mul a c ≼ f.mul b c
  pub zero-mul : (a : R) → f.mul (f.decimal 0 0) a ≡ f.decimal 0 0
  pub one-mul : (a : R) → f.mul (f.decimal 1 0) a ≡ a
  pub mul_comm : (a b : R) → f.mul a b ≡ f.mul b a
  pub div_mono : (a b c : R) → f.lt (f.decimal 0 0) c ≡ true → a ≼ b → f.div a c ≼ f.div b c
  pub zero-div : (a : R) → f.lt (f.decimal 0 0) a ≡ true → f.div (f.decimal 0 0) a ≡ f.decimal 0 0
  pub div_self : (a : R) → f.lt (f.decimal 0 0) a ≡ true → f.div a a ≡ f.decimal 1 0

-- Differences of distinct numbers, and powers of numbers that are not negative.
pub record IsPower (R : Type 0) ⦃f : Float R⦄ : Type 0 where
  pub sub_pos : (a b : R) → f.lt a b ≡ true → f.lt (f.decimal 0 0) (f.sub b a) ≡ true
  pub pow_mono : (a b p : R) → f.decimal 0 0 ≼ a → a ≼ b → f.pow a p ≼ f.pow b p
  pub pow_nonneg : (a p : R) → f.decimal 0 0 ≼ a → f.decimal 0 0 ≼ f.pow a p
  pub pow-le-one : (a p : R) → f.decimal 0 0 ≼ a → a ≼ f.decimal 1 0 → f.pow a p ≼ f.decimal 1 0

-- `round` keeps the order.
pub record IsRounding (R : Type 0) ⦃f : Float R⦄ : Type 0 where
  pub round_mono : (a b : R) → a ≼ b → f.round a ≼ f.round b
