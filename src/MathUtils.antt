-- ===== src/MathUtils.antt =====
-- utils/math_utils.py: the helpers of the quant model. `geometric_decay` stands with the depth engine.
use mmp_meridian.Prelude.{ℕ, List, map, Option, none, some, ◌≡◌, arith, if◌then◌else◌}
use mmp_meridian.Prelude.Dict.{Dict, values}
use mmp_meridian.Float.{Float, ◌≼◌, IsOrdered, max, min, nought, sum_from}
use mmp_meridian.Float.Order.{le-max_left, le-max_right, max_le, min-le_left, min-le_right, le_min}

module _ {R : Type 0} ⦃f : Float R⦄ where
  open f use {add, sub, mul, div, eq, pow}

  -- `linspace n` is numpy's `linspace(0.0, 1.0, n)`.
  unfoldable power_curve : (ℕ → List R) → ℕ → R → List R
  power_curve linspace n gamma = map (λ t. pow t gamma) (linspace n)

  unfoldable interpolate_levels : (ℕ → List R) → R → R → ℕ → R → List R
  unfolding power_curve
  interpolate_levels linspace lo hi n gamma =
      map (λ t. add lo (mul (sub hi lo) t)) (power_curve linspace n gamma)

  -- `none` is the exception raised when all weights are zero.
  unfoldable pub normalize_weights : Dict R → Option (Dict R)
  normalize_weights weights =
      let total = sum_from nought (values weights) in
      if eq total nought then none else some (map (λ (k, v). (k, div v total)) weights)

  unfoldable pub clip : R → R → R → R
  clip value lo hi = max lo (min hi value)

  unfoldable pub pct_change : R → R → R
  pct_change new old = if eq old nought then nought else div (sub new old) old

  module _ (o : IsOrdered R) where
    pub le-clip : (v lo hi : R) → lo ≼ clip v lo hi
    unfolding clip
    le-clip v lo hi = le-max_left o lo (min hi v)

    pub clip-le : (v lo hi : R) → lo ≼ hi → clip v lo hi ≼ hi
    unfolding clip
    clip-le v lo hi h = max_le o lo (min hi v) hi h (min-le_left o hi v)

    pub clip_mono : (v w lo hi : R) → v ≼ w → clip v lo hi ≼ clip w lo hi
    unfolding clip
    clip_mono v w lo hi h = max_le o lo (min hi v) _ (le-max_left o lo (min hi w)) (
        o.le_trans _ _ _
          (le_min o hi w (min hi v) (min-le_left o hi v) (o.le_trans _ _ _ (min-le_right o hi v) h))
          (le-max_right o lo (min hi w)))

    -- Between its bounds a value is kept.
    pub clip_inside : (v lo hi : R) → lo ≼ v → v ≼ hi → clip v lo hi ≡ v
    unfolding clip
    clip_inside v lo hi h k = ground (
      arith,
      o.lt-eq-not-le v hi,
      o.lt-eq-not-le lo v,
      o.lt-eq-not-le lo hi,
      o.le_antisymm v hi k,
      o.le_antisymm lo v h,
      o.le_trans lo v hi h k,
    )
