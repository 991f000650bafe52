-- ===== src/Depth/Engine.antt =====
-- quant/depth_engine.py and `geometric_decay` of utils/math_utils.py. `total` is numpy's sum of an
-- array, whose order of additions is numpy's own; the other arithmetic on arrays is elementwise.
use mmp_meridian.Prelude.{ℕ, zero, suc, List, [], ◌∷◌, ◌++◌, map, if◌then◌else◌}
use mmp_meridian.Float.{Float, nought, unity, max, min}
use mmp_meridian.Config.{DepthConfig}
use mmp_meridian.MathUtils.{clip}
use mmp_meridian.Exchange.{Side, buy, sell}

-- `range(n)`
abbrev pub range : ℕ → List ℕ
range zero = []
range (suc n) = range n ++ n ∷ []

module _ {R : Type 0} ⦃f : Float R⦄ where
  open f use {add, sub, mul, div, lt, le, decimal, pow}

  unfoldable pub geometric_decay : (List R → R) → ℕ → R → List R
  geometric_decay total n decay =
      let weights = map (λ i. pow decay (decimal i 0)) (range n) in
      map (λ a. div a (total weights)) weights

  -- The budget of one side.
  unfoldable pub side_budget_of : DepthConfig R → R → Side → R → R
  unfolding clip
  side_budget_of cfg skew_factor buy mult =
      mul (mul (div cfg.total_budget_usd (decimal 2 0)) mult)
        (clip skew_factor (decimal 5 1) (decimal 2 0))
  side_budget_of cfg skew_factor sell mult =
      mul (mul (div cfg.total_budget_usd (decimal 2 0)) mult)
        (clip (sub (decimal 2 0) skew_factor) (decimal 5 1) (decimal 2 0))

  -- The loop that enforces the decrement, from the level after `prev`.
  unfoldable pub step_down : R → R → List R → List R
  step_down min_step_usd prev [] = []
  step_down min_step_usd prev (a ∷ rest) =
      let min_val = sub prev min_step_usd in
      let a' = if lt min_val a then max min_val nought else a in a' ∷ step_down min_step_usd a' rest

  unfoldable pub decrement : R → List R → List R
  unfolding step_down
  decrement min_step_usd [] = []
  decrement min_step_usd (a ∷ rest) =
      if lt nought min_step_usd then a ∷ step_down min_step_usd a rest else a ∷ rest

  abbrev pub least : R → List R → R
  least a [] = a
  least a (b ∷ rest) = least (min a b) rest

  -- The scaled amounts, if the least of them is large enough. No amounts have no least one: numpy
  -- raises, but their total is 0 and asks for no scaling.
  abbrev pub if_large_enough : R → List R → List R → List R
  if_large_enough min_order [] amounts = amounts
  if_large_enough min_order (a ∷ rest) amounts =
      if le min_order (least a rest) then a ∷ rest else amounts

  unfoldable pub cap : (List R → R) → R → R → List R → List R
  cap total min_order side_budget amounts =
      let total_after_min = total amounts in
      let scale = div side_budget total_after_min in
      if lt side_budget total_after_min
      then if_large_enough min_order (map (λ a. mul a scale) amounts) amounts
      else amounts

  unfoldable pub ratios : (List R → R) → R → ℕ → R → List R
  unfolding geometric_decay
  ratios total agg n curve_strength =
      let blend = pow agg curve_strength in
      map (λ passive. add (mul (sub unity blend) passive) (mul blend (div unity (decimal n 0))))
        (geometric_decay total n (decimal 8 1))

  unfoldable pub compute_amounts : (List R → R) → DepthConfig R → R → ℕ → R → Side → R → R → List R
  unfolding clip ratios side_budget_of decrement cap
  compute_amounts total cfg aggressiveness n_levels skew_factor side min_step_usd depth_mult =
      let agg = clip aggressiveness nought unity in
      let side_budget = side_budget_of cfg skew_factor side (max nought depth_mult) in
      let raw = map (λ r. mul r side_budget) (ratios total agg n_levels cfg.curve_strength) in
      let floored = map (λ a. max a cfg.min_order_usd) (decrement min_step_usd raw) in
      map (λ a. max a cfg.min_order_usd) (cap total cfg.min_order_usd side_budget floored)

  unfoldable pub usd_to_token_amount : R → R → R
  usd_to_token_amount usd_amount price = if le price nought then nought else div usd_amount price
