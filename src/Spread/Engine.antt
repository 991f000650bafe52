-- ===== src/Spread/Engine.antt =====
-- quant/spread_engine.py. `linspace n` is numpy's `linspace(0.0, 1.0, n)`; the arithmetic of numpy on
-- arrays is that of the elements.
use mmp_meridian.Prelude.{ℕ, ◌&&◌, List, [], ◌∷◌, map, if◌then◌else◌}
use mmp_meridian.Float.{Float, nought, unity, max, abs}
use mmp_meridian.Config.{SpreadConfig}
use mmp_meridian.MathUtils.{clip}

pub record SpreadEngine (R : Type 0) : Type 0 where
  pub cfg : SpreadConfig R
  pub maker_fee_bps : R
  pub min_profitable_spread_bps : R

-- The arguments of `compute_levels_huy`.
pub record HuyArguments (R : Type 0) : Type 0 where
  pub buy_agg : R
  pub sell_agg : R
  pub buy_levels : ℕ
  pub sell_levels : ℕ
  pub buy_curve_strength : R
  pub sell_curve_strength : R
  pub buy_min_step : R
  pub sell_min_step : R
  pub spread_mult : R

module _ {R : Type 0} ⦃f : Float R⦄ where
  open f use {add, sub, mul, div, lt, le, decimal, pow, exp}

  -- `SpreadEngine(config, maker_fee_bps)`
  unfoldable pub create : SpreadConfig R → R → SpreadEngine R
  create config maker_fee_bps = record {
    cfg = config;
    maker_fee_bps = maker_fee_bps;
    min_profitable_spread_bps = add (mul maker_fee_bps (decimal 2 0)) (decimal 2 0);
  }

  abbrev gamma : R → R → R
  gamma cs agg = exp (mul cs (sub (mul (decimal 2 0) agg) unity))

  unfoldable pub compute_side_levels : (ℕ → List R) → R → R → R → ℕ → R → List R
  compute_side_levels linspace tightest widest agg n cs =
      map (λ t. add tightest (mul (sub widest tightest) (pow t (gamma cs agg)))) (linspace n)

  -- The two sides moved apart when their tightest levels are closer than the fees.
  unfoldable widen : R → List R → List R → List R × List R
  widen bps (b ∷ buy) (s ∷ sell) =
      let total_spread_pct = sub s b in
      let min_spread_pct = div bps (decimal 100 0) in
      let deficit = sub min_spread_pct total_spread_pct in
      if lt nought bps && lt total_spread_pct min_spread_pct
      then (sub b (div deficit (decimal 2 0)) ∷ buy, add s (div deficit (decimal 2 0)) ∷ sell)
      else (b ∷ buy, s ∷ sell)
  widen bps buy sell = (buy, sell)

  unfoldable pub compute_levels : (ℕ → List R) → SpreadEngine R → R → ℕ → R → List R × List R
  unfolding clip compute_side_levels widen
  compute_levels linspace e aggressiveness n_levels spread_mult =
      let agg = clip aggressiveness nought unity in
      let mult = max (decimal 1 1) spread_mult in
      let cs = e.cfg.curve_strength in
      let buy =
        compute_side_levels linspace (mul e.cfg.buy_max_pct mult) (mul e.cfg.buy_min_pct mult) agg
          n_levels cs in
      let sell =
        compute_side_levels linspace (mul e.cfg.sell_min_pct mult) (mul e.cfg.sell_max_pct mult) agg
          n_levels cs in
      widen e.min_profitable_spread_bps buy sell

  unfoldable pub compute_levels_dual : (ℕ → List R) → SpreadEngine R → R → R → ℕ → List R × List R
  unfolding clip compute_side_levels
  compute_levels_dual linspace e buy_aggressiveness sell_aggressiveness n_levels =
      let cs = e.cfg.curve_strength in
      (
        compute_side_levels linspace e.cfg.buy_max_pct e.cfg.buy_min_pct
            (clip buy_aggressiveness nought unity) n_levels cs,
        compute_side_levels linspace e.cfg.sell_min_pct e.cfg.sell_max_pct
            (clip sell_aggressiveness nought unity) n_levels cs,
      )

  unfoldable pub prices_from_spreads : R → List R → List R → List R × List R
  prices_from_spreads global_mid buy_spreads sell_spreads =
      let price : R → R = λ s. mul global_mid (add unity (div s (decimal 100 0))) in
      (map price buy_spreads, map price sell_spreads)

  -- The walk of `enforce_min_step` from the level `prev` outward.
  unfoldable pub push_levels : R → R → List R → List R
  push_levels min_step prev [] = []
  push_levels min_step prev (level ∷ levels) =
      let min_required = if lt nought prev then add prev min_step else sub prev min_step in
      let level' = if lt (abs (sub level prev)) min_step then min_required else level in
      level' ∷ push_levels min_step level' levels

  -- A list of one level has no level to push.
  unfoldable pub enforce_min_step : List R → R → List R
  unfolding push_levels
  enforce_min_step [] min_step = []
  enforce_min_step (level ∷ levels) min_step =
      if le min_step nought then level ∷ levels else level ∷ push_levels min_step level levels

  unfoldable pub compute_levels_huy :
      (ℕ → List R) → SpreadEngine R → HuyArguments R → List R × List R
  unfolding clip compute_side_levels enforce_min_step
  compute_levels_huy linspace e a =
      let mult = max (decimal 1 1) a.spread_mult in
      let buy =
        compute_side_levels linspace (mul e.cfg.buy_max_pct mult) (mul e.cfg.buy_min_pct mult)
          (clip a.buy_agg nought unity) a.buy_levels a.buy_curve_strength in
      let sell =
        compute_side_levels linspace (mul e.cfg.sell_min_pct mult) (mul e.cfg.sell_max_pct mult)
          (clip a.sell_agg nought unity) a.sell_levels a.sell_curve_strength in
      (
        if lt nought a.buy_min_step then enforce_min_step buy a.buy_min_step else buy,
        if lt nought a.sell_min_step then enforce_min_step sell a.sell_min_step else sell,
      )
