-- ===== src/Float/Fixed.antt =====
-- A concrete arithmetic that meets the laws of Float: integers counted in units of 10^-12, where
-- products and quotients are cut off towards zero. The witnesses run on it.
use mathlib.Core.Path.{subst}
use mmp_meridian.Prelude.{
  refl, ℕ, zero, suc, ◌+◌, ◌-◌, ◌*◌, ◌/◌, ◌^◌, ◌≤◌, ◌<◌, ◌≡◌, true, leb, arith, if◌then◌else◌,
}
use mmp_meridian.Prelude.Int.{
  ℤ, pos, negsuc, pos_part, neg_part, sub_ℕ, ◌+ℤ◌, ◌-ℤ◌, ltb_ℤ, leb_ℤ, eqb_ℤ,
}
use native.Mathlib.Nat.{
  one-le-pow, pow-le-pow_right, mul_comm, div-zero, zero-div, le_trans, mul-div_right, mul-div-le,
  le-div_iff_mul-le, le_of_mul-le-mul_right, mul-le-mul_right,
}
use mmp_meridian.Float.Ops.{Float, ◌≼◌, IsOrdered, IsMonotone, IsPower, IsRounding}

abbrev pub unit : ℕ
unit = 1_000_000_000_000

unfoldable pub mul : ℤ → ℤ → ℤ
mul a b =
    sub_ℕ ((pos_part a * pos_part b + neg_part a * neg_part b) / unit)
      ((pos_part a * neg_part b + neg_part a * pos_part b) / unit)

unfoldable pub div : ℤ → ℤ → ℤ
div a b =
    sub_ℕ (pos_part a * unit / pos_part b + neg_part a * unit / neg_part b)
      (pos_part a * unit / neg_part b + neg_part a * unit / pos_part b)

unfoldable pub round : ℤ → ℤ
round a =
    sub_ℕ ((pos_part a + 500_000_000_000) / unit * unit)
      ((neg_part a + 500_000_000_000) / unit * unit)

-- `pow a n` multiplies as often as the whole part of `n` says, at least once.
power : ℕ → ℤ → ℤ
unfolding mul
power zero a = a
power (suc n) a = mul (power n a) a

unfoldable pub pow : ℤ → ℤ → ℤ
unfolding power mul
pow a n = power (pos_part n / unit - 1) a

instance abbrev pub fixed : Float ℤ
fixed = record {
  add = ◌+ℤ◌;
  sub = ◌-ℤ◌;
  mul = mul;
  div = div;
  lt = ltb_ℤ;
  le = leb_ℤ;
  eq = eqb_ℤ;
  decimal = λ m k. pos (m * unit / 10 ^ k);
  round = round;
  pow = pow;
  exp = λ a. if ltb_ℤ a (pos 0) then pos 1 else a +ℤ pos unit;
}

pow-pos : (k : ℕ) → 0 < 10 ^ k
pow-pos k = one-le-pow k 10 (omega arith)

decimal_le_lem :
    (m k n j : ℕ) → leb (m * 10 ^ j) (n * 10 ^ k) ≡ true → m * unit / 10 ^ k ≤ n * unit / 10 ^ j
decimal_le_lem m k n j h =
    let q = m * unit / 10 ^ k in
    let below : 10 ^ k * q ≤ m * unit = mul-div-le (m * unit) (10 ^ k) in
    let cross : m * 10 ^ j ≤ n * 10 ^ k = ground arith in
    (le-div_iff_mul-le (pow-pos j)).1 (
      le_of_mul-le-mul_right {k = 10 ^ k}
        (grind (arith, mul-le-mul_right (10 ^ j) below, mul-le-mul_right unit cross)) (pow-pos k))

decimal_pos_lem : (m k : ℕ) → leb k 12 ≡ true → 1 ≤ suc m * unit / 10 ^ k
decimal_pos_lem m k h =
    let small : 10 ^ k ≤ 10 ^ 12 = pow-le-pow_right (omega arith) {i = k} {j = 12} (ground arith) in
    (le-div_iff_mul-le (pow-pos k)).1 (omega arith)

pub fixed-IsOrdered : IsOrdered ℤ
fixed-IsOrdered = record {
  le_refl = λ a. ground arith;
  le_trans = λ a b c. ground arith;
  le_antisymm = λ a b h k. ground arith;
  lt-eq-not-le = λ a b. ground arith;
  le_total = λ a b. ground arith;
  eq_iff = λ a b. ground arith;
  decimal_le = λ m k n j h. ground (arith, decimal_le_lem m k n j h);
  decimal_pos = λ m k h. ground (arith, decimal_pos_lem m k h);
}

module _ (n : ℕ) where
  mul_mono_lem : (a b : ℤ) → a ≼ b → mul a (pos n) ≼ mul b (pos n)
  unfolding mul
  mul_mono_lem (pos x) (pos y) h = ground (arith, mul-le-mul_right {m = x} {n = y} n)
  mul_mono_lem (pos x) (negsuc y) h = ground arith
  mul_mono_lem (negsuc x) (pos y) h = ground arith
  mul_mono_lem (negsuc x) (negsuc y) h = ground (arith, mul-le-mul_right {m = y} {n = x} n)

div-le-div : (c : ℕ) {x y : ℕ} → 0 < c → x ≤ y → x / c ≤ y / c
div-le-div c {x} {y} pc h = (le-div_iff_mul-le pc).1 (le_trans (rw mul_comm (mul-div-le x c)) h)

module _ (c : ℕ) (c_pos : 0 < c) where
  div_mono_lem : (a b : ℤ) → a ≼ b → div a (pos c) ≼ div b (pos c)
  unfolding div
  div_mono_lem (pos x) (pos y) h =
      grind
        (arith, div-zero, zero-div, div-le-div c {x = x * unit} {y = y * unit} c_pos (ground arith))
  div_mono_lem (pos x) (negsuc y) h = ground arith
  div_mono_lem (negsuc x) (pos y) h = grind (arith, div-zero, zero-div)
  div_mono_lem (negsuc x) (negsuc y) h = grind (
    arith,
    div-zero,
    zero-div,
    div-le-div c {x = suc y * unit} {y = suc x * unit} c_pos (ground arith),
  )

  div_self_lem : div (pos c) (pos c) ≡ pos unit
  unfolding div
  div_self_lem = grind (arith, div-zero, zero-div, mul-div_right unit c_pos)

  zero-div_lem : div (pos 0) (pos c) ≡ pos 0
  unfolding div
  zero-div_lem = grind (arith, div-zero, zero-div)

mul_mono_sign : (a b : ℤ) → a ≼ b → (c : ℤ) → pos 0 ≼ c → mul a c ≼ mul b c
mul_mono_sign a b h (pos n) p = mul_mono_lem n a b h
mul_mono_sign a b h (negsuc n) p = absurd (ground arith)

mul_comm_lem : (a b : ℤ) → mul a b ≡ mul b a
unfolding mul
mul_comm_lem a b = ground (
  arith,
  mul_comm (pos_part a) (pos_part b),
  mul_comm (neg_part a) (neg_part b),
  mul_comm (pos_part a) (neg_part b),
  mul_comm (neg_part a) (pos_part b),
)

by_sign : (P : ℤ → Type 0) → ((n : ℕ) → 0 < n → P (pos n)) → (c : ℤ) → ltb_ℤ (pos 0) c ≡ true → P c
by_sign P h (pos n) p = h n (ground arith)
by_sign P h (negsuc n) p = absurd (ground arith)

pub fixed-IsMonotone : IsMonotone ℤ
unfolding ◌+ℤ◌ ◌-ℤ◌ mul
fixed-IsMonotone = record {
  sub_self = λ a. ground arith;
  sub_mono = λ a b c d h k. ground arith;
  add_mono = λ a b c d h k. ground arith;
  add-zero = λ a. ground arith;
  sub-zero = λ a. ground arith;
  mul_mono = λ a b c h k. mul_mono_sign a b k c h;
  zero-mul = λ a. ground arith;
  one-mul = λ a. ground arith;
  mul_comm = mul_comm_lem;
  div_mono = λ a b c h k. by_sign (λ x. div a x ≼ div b x) (λ n p. div_mono_lem n p a b k) c h;
  zero-div = λ a h. by_sign (λ x. div (pos 0) x ≡ pos 0) zero-div_lem a h;
  div_self = λ a h. by_sign (λ x. div x x ≡ pos unit) div_self_lem a h;
}

zero-mul_lem : (a : ℤ) → mul (pos 0) a ≡ pos 0
unfolding mul
zero-mul_lem a = ground arith

one-mul_lem : mul (pos unit) (pos unit) ≡ pos unit
unfolding mul
one-mul_lem = refl

-- Of numbers that are not negative, products keep the order on both sides.
mul_both : (a b c d : ℤ) → pos 0 ≼ a → a ≼ b → pos 0 ≼ c → c ≼ d → mul a c ≼ mul b d
mul_both a b c d ha hab hc hcd =
    fixed-IsOrdered.le_trans (mul a c) (mul b c) (mul b d) (mul_mono_sign a b hab c hc) (
      rw (mul_comm_lem b c, mul_comm_lem b d)
        (mul_mono_sign c d hcd b (fixed-IsOrdered.le_trans (pos 0) a b ha hab)))

power_mono : (n : ℕ) (a b : ℤ) → pos 0 ≼ a → a ≼ b → (pos 0 ≼ power n a) × (power n a ≼ power n b)
unfolding power
power_mono zero a b h k = (h, k)
power_mono (suc n) a b h k =
    let (low, up) = power_mono n a b h k in
    (
      subst (λ x. x ≼ mul (power n a) a) (zero-mul_lem a)
          (mul_mono_sign (pos 0) (power n a) low a h),
      mul_both (power n a) (power n b) a b low up h k,
    )

power-le-one : (n : ℕ) (a : ℤ) → pos 0 ≼ a → a ≼ pos unit → power n a ≼ pos unit
unfolding power
power-le-one zero a h k = k
power-le-one (suc n) a h k =
    subst (λ x. mul (power n a) a ≼ x) (one-mul_lem)
      (mul_both (power n a) (pos unit) a (pos unit) (power_mono n a a h (ground arith)).0
        (power-le-one n a h k) h k)

pub fixed-IsPower : IsPower ℤ
unfolding ◌-ℤ◌ pow
fixed-IsPower = record {
  sub_pos = λ a b h. ground arith;
  pow_mono = λ a b p h k. (power_mono _ a b h k).1;
  pow_nonneg = λ a p h. (power_mono _ a a h (ground arith)).0;
  pow-le-one = λ a p h k. power-le-one _ a h k;
}

whole_mono :
    (x y : ℕ) → x ≤ y → (x + 500_000_000_000) / unit * unit ≤ (y + 500_000_000_000) / unit * unit
whole_mono x y h = mul-le-mul_right unit (
    div-le-div unit {x = x + 500_000_000_000} {y = y + 500_000_000_000} (omega arith) (omega arith))

round_mono_lem : (a b : ℤ) → a ≼ b → round a ≼ round b
unfolding round
round_mono_lem (pos x) (pos y) h = ground (arith, whole_mono x y)
round_mono_lem (pos x) (negsuc y) h = absurd (ground arith)
round_mono_lem (negsuc x) (pos y) h = ground arith
round_mono_lem (negsuc x) (negsuc y) h = ground (arith, whole_mono (suc y) (suc x))

pub fixed-IsRounding : IsRounding ℤ
fixed-IsRounding = record { round_mono = round_mono_lem }
