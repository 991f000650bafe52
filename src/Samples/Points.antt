-- ===== src/Samples/Points.antt =====
-- Points that the tests of the spread engine and of the bot take for those of numpy's `linspace`.
use mmp_meridian.Prelude.{ℕ, zero, suc, ◌≡◌, refl, ap, List, [], ◌∷◌, All, length}
use mmp_meridian.Prelude.Int.{ℤ, pos, ◌+ℤ◌}
use mmp_meridian.Float.{◌≼◌}
use mmp_meridian.Samples.{micro}
use mmp_meridian.Float.Fixed.{fixed}
use mmp_meridian.Spread.Bounds.{IsLinspace}

-- n points, all of them 0.5.
unfoldable pub points : ℕ → List ℤ
points zero = []
points (suc n) = micro 500_000 ∷ points n

length-points : (n : ℕ) → length (points n) ≡ n
unfolding points
length-points zero = refl
length-points (suc n) = ap suc (length-points n)

points_nonneg : (n : ℕ) → All (λ t. micro 0 ≼ t) (points n)
unfolding points
points_nonneg zero = tt
points_nonneg (suc n) = (refl, points_nonneg n)

pub points-IsLinspace : IsLinspace points
points-IsLinspace = record { length_lem = length-points; nonneg = points_nonneg }

-- The sum of an array.
unfoldable pub sum : List ℤ → ℤ
sum [] = pos 0
sum (a ∷ l) = a +ℤ sum l
