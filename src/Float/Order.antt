-- ===== src/Float/Order.antt =====
-- What follows from the order alone: `max`, `min`, and strict against weak.
use mmp_meridian.Prelude.{◌≡◌, true, false, arith}
use mmp_meridian.Float.Ops.{Float, ◌≼◌, IsOrdered, max, min}

module _ {R : Type 0} ⦃f : Float R⦄ (o : IsOrdered R) where
  open o use {le_refl, lt-eq-not-le, le_total}

  pub le_of_lt : (a b : R) → f.lt a b ≡ true → a ≼ b
  le_of_lt a b h = ground (arith, lt-eq-not-le a b, le_total b a)

  pub le_of_not-lt : (a b : R) → f.lt a b ≡ false → b ≼ a
  le_of_not-lt a b h = ground (arith, lt-eq-not-le a b)

  pub lt_of_lt_of_le : (a b c : R) → f.lt a b ≡ true → b ≼ c → f.lt a c ≡ true
  lt_of_lt_of_le a b c h k = ground (arith, lt-eq-not-le a b, lt-eq-not-le a c, o.le_trans b c a)

  pub lt_of_le_of_lt : (a b c : R) → a ≼ b → f.lt b c ≡ true → f.lt a c ≡ true
  lt_of_le_of_lt a b c h k = ground (arith, lt-eq-not-le b c, lt-eq-not-le a c, o.le_trans c a b)

  pub le-max_left : (a b : R) → a ≼ max a b
  le-max_left a b = ground (arith, le_refl a, le_of_lt a b)

  pub le-max_right : (a b : R) → b ≼ max a b
  le-max_right a b = ground (arith, le_refl b, le_of_not-lt a b)

  pub max_le : (a b c : R) → a ≼ c → b ≼ c → max a b ≼ c
  max_le a b c h k = ground arith

  pub min-le_left : (a b : R) → min a b ≼ a
  min-le_left a b = ground (arith, le_refl a, le_of_lt b a)

  pub min-le_right : (a b : R) → min a b ≼ b
  min-le_right a b = ground (arith, le_refl b, le_of_not-lt b a)

  pub le_min : (a b c : R) → c ≼ a → c ≼ b → c ≼ min a b
  le_min a b c h k = ground arith

  pub not-lt_of_le : (a b : R) → a ≼ b → f.lt b a ≡ false
  not-lt_of_le a b h = ground (arith, lt-eq-not-le b a)

  pub lt_of_not-le : (a b : R) → f.le a b ≡ false → f.lt b a ≡ true
  lt_of_not-le a b h = ground (arith, lt-eq-not-le b a)
