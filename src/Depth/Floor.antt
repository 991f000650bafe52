-- ===== src/Depth/Floor.antt =====
-- The number of the orders and their least size, and how the budget follows the inventory.
use mmp_meridian.Prelude.{
  ℕ, zero, suc, ◌≡◌, refl, ◌∙◌, ap, List, [], ◌∷◌, map, All, length, length-map, length-append,
  arith, if◌then◌else◌,
}
use mmp_meridian.Float.{Float, ◌≼◌, IsOrdered, IsMonotone, nought, max}
use mmp_meridian.Float.Order.{le-max_right}
use mmp_meridian.Float.Signs.{mul_nonneg, div_nonneg}
use mmp_meridian.Config.{DepthConfig}
use mmp_meridian.MathUtils.{clip_mono}
use mmp_meridian.Exchange.{Side, buy, sell}
use mmp_meridian.Depth.Engine.{
  range, geometric_decay, side_budget_of, step_down, decrement, if_large_enough, cap, ratios,
  compute_amounts,
}

length-range : (n : ℕ) → length (range n) ≡ n
length-range zero = refl
length-range (suc n) = ground (arith, length-range n, length-append (range n) (n ∷ []))

module _ {R : Type 0} ⦃f : Float R⦄ where
  open f use {sub, mul, div, lt, le, decimal, add, pow}

  length-step_down :
      (min_step prev : R) (l : List R) → length (step_down min_step prev l) ≡ length l
  unfolding step_down
  length-step_down min_step prev [] = refl
  length-step_down min_step prev (a ∷ rest) =
      let min_val = sub prev min_step in
      ap suc (length-step_down min_step (if lt min_val a then max min_val nought else a) rest)

  length-decrement : (min_step : R) (l : List R) → length (decrement min_step l) ≡ length l
  unfolding decrement
  length-decrement min_step [] = refl
  length-decrement min_step (a ∷ rest) = ground (arith, length-step_down min_step a rest)

  length-if_large_enough :
      (min_order : R) (scaled amounts : List R)
      → length scaled ≡ length amounts
      → length (if_large_enough min_order scaled amounts) ≡ length amounts
  length-if_large_enough min_order [] amounts h = refl
  length-if_large_enough min_order (a ∷ rest) amounts h = ground (arith, h)

  length-cap :
      (total : List R → R) (min_order budget : R) (l : List R)
      → length (cap total min_order budget l) ≡ length l
  unfolding cap
  length-cap total min_order budget l =
      let scaled = map (λ a. mul a (div budget (total l))) l in
      ground (
        arith,
        length-if_large_enough min_order scaled l
            (length-map (λ a. mul a (div budget (total l))) l),
      )

  length-ratios :
      (total : List R → R) (agg : R) (n : ℕ) (cs : R) → length (ratios total agg n cs) ≡ n
  unfolding ratios geometric_decay
  length-ratios total agg n cs =
      length-map _ _ ∙ length-map _ _ ∙ length-map _ (range n) ∙ length-range n

  All-max : (o : IsOrdered R) (b : R) (l : List R) → All (λ a. b ≼ a) (map (λ a. max a b) l)
  All-max o b [] = tt
  All-max o b (a ∷ l) = (le-max_right o a b, All-max o b l)

  -- There is an amount for each level, and none is smaller than the least order that is configured,
  -- if the numbers are ordered.
  pub compute_amounts_lem :
      (o : IsOrdered R) (total : List R → R) (cfg : DepthConfig R) (aggressiveness : R)
      (n_levels : ℕ) (skew_factor : R) (side : Side) (min_step_usd depth_mult : R)
      → let amounts =
          compute_amounts total cfg aggressiveness n_levels skew_factor side min_step_usd
            depth_mult in
        (length amounts ≡ n_levels) × All (λ a. cfg.min_order_usd ≼ a) amounts
  unfolding compute_amounts
  compute_amounts_lem o total cfg aggressiveness n_levels skew_factor side min_step_usd depth_mult =
      (
        length-map _ _
            ∙ length-cap total cfg.min_order_usd _ _
            ∙ length-map _ _
            ∙ length-decrement min_step_usd _
            ∙ length-map _ _
            ∙ length-ratios total _ n_levels cfg.curve_strength,
        All-max o cfg.min_order_usd _,
      )

  -- A greater skew factor never takes budget from the buy side and never gives any to the sell side, if
  -- the arithmetic is monotone, the budget is not negative and the multiplier is not.
  side_budget_of_mono :
      (o : IsOrdered R) (m : IsMonotone R) (cfg : DepthConfig R) (s t mult : R)
      → s ≼ t
      → nought ≼ cfg.total_budget_usd
      → nought ≼ mult
      → (side_budget_of cfg s buy mult ≼ side_budget_of cfg t buy mult)
        × (side_budget_of cfg t sell mult ≼ side_budget_of cfg s sell mult)
  unfolding side_budget_of
  side_budget_of_mono o m cfg s t mult h b k =
      let half = mul (div cfg.total_budget_usd (decimal 2 0)) mult in
      let half-nonneg =
        mul_nonneg o m (div cfg.total_budget_usd (decimal 2 0)) mult
          (div_nonneg o m cfg.total_budget_usd (decimal 2 0) b (o.decimal_pos 1 0 refl)) k in
      let grow : (a c : R) → a ≼ c → mul half a ≼ mul half c = λ a c h.
        ground (arith, m.mul_comm half a, m.mul_comm half c, m.mul_mono a c half half-nonneg h) in
      (
        grow _ _ (clip_mono o s t (decimal 5 1) (decimal 2 0) h),
        grow _ _ (
            clip_mono o (sub (decimal 2 0) t) (sub (decimal 2 0) s) (decimal 5 1) (decimal 2 0)
              (m.sub_mono (decimal 2 0) (decimal 2 0) t s (o.le_refl (decimal 2 0)) h)),
      )
