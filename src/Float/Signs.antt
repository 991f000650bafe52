-- ===== src/Float/Signs.antt =====
-- Signs and the unit interval, from monotone arithmetic.
use mmp_meridian.Prelude.{◌≡◌, true, arith}
use mmp_meridian.Float.Ops.{Float, ◌≼◌, IsOrdered, IsMonotone, nought}

module _ {R : Type 0} ⦃f : Float R⦄ (o : IsOrdered R) (m : IsMonotone R) where
  open f use {add, sub, mul, div}
  open m use {
    sub_self, sub_mono, add_mono, add-zero, mul_mono, zero-mul, one-mul, mul_comm, div_mono,
    zero-div, div_self,
  }

  pub sub_nonneg : (a b : R) → b ≼ a → nought ≼ sub a b
  sub_nonneg a b h = ground (arith, sub_self b, sub_mono b a b b h (o.le_refl b))

  pub sub_nonpos : (a b : R) → a ≼ b → sub a b ≼ nought
  sub_nonpos a b h = ground (arith, sub_self b, sub_mono a b b b h (o.le_refl b))

  add_nonneg : (a b : R) → nought ≼ a → nought ≼ b → nought ≼ add a b
  add_nonneg a b h k = ground (arith, add-zero nought, add_mono nought a nought b h k)

  pub le-add : (a b : R) → nought ≼ b → a ≼ add a b
  le-add a b h = ground (arith, add-zero a, add_mono a a nought b (o.le_refl a) h)

  pub add-le : (a b : R) → b ≼ nought → add a b ≼ a
  add-le a b h = ground (arith, add-zero a, add_mono a a b nought (o.le_refl a) h)

  pub mul_nonneg : (a b : R) → nought ≼ a → nought ≼ b → nought ≼ mul a b
  mul_nonneg a b h k = ground (arith, zero-mul b, mul_mono nought a b k h)

  pub div_nonneg : (a b : R) → nought ≼ a → f.lt nought b ≡ true → nought ≼ div a b
  div_nonneg a b h k = ground (arith, zero-div b k, div_mono nought a b k h)
