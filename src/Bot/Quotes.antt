-- ===== src/Bot/Quotes.antt =====
-- The middle of `_tick`: from the state, the parameters of the regime and the skew to the grid.
use mmp_meridian.Prelude.{ℕ, zero, suc, Option, none, some, List, map, if◌then◌else◌}
use mmp_meridian.Float.{Float, nought, unity, max, min}
use mmp_meridian.Exchange.{Side, buy, sell}
use mmp_meridian.Quant.Aggressiveness.{
  HmmRegime, is_normal, is_crash, compute_with_regime, compute_with_hmm_regime,
}
use mmp_meridian.Spread.Engine.{HuyArguments, compute_levels_huy}
use mmp_meridian.Depth.Engine.{compute_amounts, usd_to_token_amount}
use mmp_meridian.Inventory.{or_else}
use mmp_meridian.Orders.Grid.{zip}
use mmp_meridian.Regime.Parameters.{MmParameters}
use mmp_meridian.Regime.Master.{GlobalState}
use mmp_meridian.Bot.State.{Parts, Quote}

-- `levels or default`: 0 counts as missing.
abbrev or_levels : Option ℕ → ℕ → ℕ
or_levels none n = n
or_levels (some zero) n = n
or_levels (some (suc k)) n = suc k

module _ {R : Type 0} ⦃f : Float R⦄ where
  open f use {add, mul, div, eq, decimal, round}

  unfoldable shifted_skew : R → R → R
  shifted_skew skew inventory_skew =
      if eq inventory_skew nought
      then skew
      else max (decimal 5 1) (min (decimal 2 0) (add skew inventory_skew))

  -- Before the scaling by `base_aggressiveness`.
  unfoldable pub raw_aggs : Parts R → GlobalState R → R × R
  unfolding compute_with_regime compute_with_hmm_regime
  raw_aggs p s =
      if is_normal p.agg_cfg s.hmm_regime
      then compute_with_regime p.agg_cfg s.volatility s.zz_regime
      else compute_with_hmm_regime p.agg_cfg s.volatility s.zz_regime s.hmm_regime
          s.hmm_regime_confidence

  -- The price of a spread, on the grid of ticks; the schema demands a positive `tick`.
  abbrev pub tick_price : R → R → R → R
  tick_price mid tick s = mul (round (div (mul mid (add unity (div s (decimal 100 0)))) tick)) tick

  abbrev token_amounts : List R → List R → List R
  token_amounts usd prices = map (λ (u, p). usd_to_token_amount u p) (zip usd prices)

  module _ (p : Parts R) where
    abbrev buy_n : ℕ
    buy_n = or_levels p.config.spread.buy_levels p.config.depth.levels

    abbrev sell_n : ℕ
    sell_n = or_levels p.config.spread.sell_levels p.config.depth.levels

    -- The arguments of the spread engine.
    unfoldable pub arguments_of : R → R → R → HuyArguments R
    arguments_of buy_agg sell_agg spread_mult =
        let c = p.config.spread in
        record {
          buy_agg = buy_agg;
          sell_agg = sell_agg;
          buy_levels = buy_n;
          sell_levels = sell_n;
          buy_curve_strength = or_else c.buy_curve_strength c.curve_strength;
          sell_curve_strength = or_else c.sell_curve_strength c.curve_strength;
          buy_min_step = c.buy_min_step;
          sell_min_step = c.sell_min_step;
          spread_mult = spread_mult;
        }

    abbrev pub crash_factor : Side → R
    crash_factor buy = p.agg_cfg.hmm.crash_buy_depth_multiplier
    crash_factor sell = p.agg_cfg.hmm.crash_sell_depth_factor

    -- The amounts of one side, in USD, with the shift of a crash.
    unfoldable pub usd_amounts : HmmRegime → R → ℕ → R → Side → R → List R
    unfolding compute_amounts
    usd_amounts regime agg n skew side depth_mult =
        let amounts =
          compute_amounts p.total p.config.depth agg n skew side p.config.depth.min_step_usd
            depth_mult in
        if is_crash regime then map (λ a. mul a (crash_factor side)) amounts else amounts

    -- The aggressiveness of the two sides.
    abbrev pub aggs_of : GlobalState R → R × R
    aggs_of s =
        let (raw_buy, raw_sell) = raw_aggs p s in
        let base = p.agg_cfg.base_aggressiveness in (mul raw_buy base, mul raw_sell base)

    unfoldable pub quote_of : GlobalState R → MmParameters R → R → Quote R
    unfolding shifted_skew arguments_of usd_amounts compute_levels_huy usd_to_token_amount
    quote_of s mm tracked_skew =
        let skew = shifted_skew tracked_skew mm.inventory_skew in
        let (buy_agg, sell_agg) = aggs_of s in
        let (buys, sells) =
          compute_levels_huy p.linspace p.spread_engine
            (arguments_of buy_agg sell_agg mm.spread_mult) in
        let tick = p.config.spread.tick_size in
        let buy_prices = map (tick_price s.global_mid tick) buys in
        let sell_prices = map (tick_price s.global_mid tick) sells in
        let buy_usd = usd_amounts s.hmm_regime buy_agg buy_n skew buy mm.depth_mult in
        let sell_usd = usd_amounts s.hmm_regime sell_agg sell_n skew sell mm.depth_mult in
        record {
          skew = skew;
          buy_spreads = buys;
          sell_spreads = sells;
          buy_usd_amounts = buy_usd;
          sell_usd_amounts = sell_usd;
          grid = record {
            buy_prices = buy_prices;
            buy_amounts = token_amounts buy_usd buy_prices;
            sell_prices = sell_prices;
            sell_amounts = token_amounts sell_usd sell_prices;
            global_mid = s.global_mid;
            aggressiveness = div (add buy_agg sell_agg) (decimal 2 0);
          };
        }
