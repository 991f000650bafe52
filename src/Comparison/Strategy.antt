-- ===== src/Comparison/Strategy.antt =====
-- `ABComparator`: one strategy tick on both arms. The identifiers of the orders, texts of the label, the
-- time and the position, are left out.
use mmp_meridian.Prelude.{
  ℕ, ◌+◌, leb, Bool, true, false, ◌&&◌, not, Option, none, some, List, [], ◌∷◌, ◌++◌, if◌then◌else◌,
}
use mmp_meridian.Float.{Float, nought, unity}
use mmp_meridian.Exchange.{Side, buy, sell}
use mmp_meridian.Config.{VolatilityConfig, DepthConfig}
use mmp_meridian.Quant.Aggressiveness.{compute}
use mmp_meridian.Quant.Volatility.{Numerics, VolatilityEngine, update_price, rolling_vol}
use mmp_meridian.Spread.Engine.{SpreadEngine, compute_levels}
use mmp_meridian.Depth.Engine.{compute_amounts}
use mmp_meridian.Orders.Grid.{zip}
use mmp_meridian.Comparison.Metrics.{
  Metrics, record_connect, record_disconnect, record_ticker, record_fill, fill_rate_pct, uptime_pct,
  ticker_success_rate_pct,
}

pub record OpenOrder (R : Type 0) : Type 0 where
  pub side : Side
  pub price : R
  pub amount : R
  pub placed_at : R

-- One arm: its metrics and its orders in memory.
pub record Arm (R : Type 0) : Type 0 where
  pub metrics : Metrics R
  pub orders : List (OpenOrder R)

-- What `fetch_ticker` answers, `none` for an exception, with the time it took and the time it came.
pub record TickerAnswer (R : Type 0) : Type 0 where
  pub mid : Option R
  pub elapsed_ms : R
  pub now : R

-- The readings of the clock in a tick, in their order: the engine's and one for each grid.
pub record Readings (R : Type 0) : Type 0 where
  pub engine : R
  pub ccxt : R
  pub cpp : R

-- What the comparator is made of.
pub record Strategy (R : Type 0) : Type 0 where
  pub volatility : VolatilityConfig R
  pub numerics : Numerics R
  pub spread_engine : SpreadEngine R
  pub depth : DepthConfig R
  pub n_levels : ℕ
  pub linspace : ℕ → List R
  pub total : List R → R

pub record Comparator (R : Type 0) : Type 0 where
  pub ccxt : Arm R
  pub cpp : Arm R
  pub vol_engine : VolatilityEngine R
  pub prev_mid : R
  pub curr_mid : R

module _ {R : Type 0} ⦃f : Float R⦄ where
  open f use {add, sub, mul, div, lt, le, eq, decimal}

  abbrev attempted : Metrics R → Metrics R
  attempted m = record m { ticks_attempted = m.ticks_attempted + 1 }

  unfoldable pub fetch_ticker_safe : TickerAnswer R → Metrics R → Option R × Metrics R
  unfolding record_ticker record_connect record_disconnect
  fetch_ticker_safe a m = elim a.mid [
    | none ↦ (none, record_disconnect a.now (record_ticker a.elapsed_ms false (attempted m)))
    | some mid ↦ (some mid, record_connect a.now (record_ticker a.elapsed_ms true (attempted m)))
  ]

  -- One side of the grid: the orders so far, and the count of those placed.
  unfoldable pub build_side : Side → R → R → List (R × R) → Arm R → Arm R
  build_side side mid now [] arm = arm
  build_side side mid now ((spread_pct, amt_usd) ∷ levels) arm =
      let price = mul mid (add unity (div spread_pct (decimal 100 0))) in
      let amount = if lt nought price then div amt_usd price else nought in
      let order : OpenOrder R = record {
        side = side;
        price = price;
        amount = amount;
        placed_at = now;
      } in
      build_side side mid now levels (
        if le amount nought then arm else record {
          orders = arm.orders ++ order ∷ [];
          metrics = record arm.metrics { orders_placed = arm.metrics.orders_placed + 1 };
        })

  unfoldable pub build_grid : R → R → List R × List R → List R × List R → Metrics R → Arm R
  unfolding build_side
  build_grid mid now (buy_spreads, sell_spreads) (buy_amts, sell_amts) m =
      build_side sell mid now (zip sell_spreads sell_amts)
        (build_side buy mid now (zip buy_spreads buy_amts) (record { metrics = m; orders = [] }))

  abbrev spread_approx : R
  spread_approx = decimal 1 3

  -- Whether the move of the mid-price crossed an order.
  unfoldable pub is_filled : R → R → OpenOrder R → Bool
  is_filled prev_mid curr_mid o =
      let prev_ask = mul prev_mid (add unity spread_approx) in
      let curr_ask = mul curr_mid (add unity spread_approx) in
      let prev_bid = mul prev_mid (sub unity spread_approx) in
      let curr_bid = mul curr_mid (sub unity spread_approx) in
      elim o.side [
        | buy ↦ le curr_ask o.price && lt o.price prev_ask
        | sell ↦ le o.price curr_bid && lt prev_bid o.price
      ]

  unfoldable pub simulate_fills : R → R → List (OpenOrder R) → Metrics R → Arm R
  unfolding is_filled record_fill
  simulate_fills prev_mid curr_mid [] m = record { metrics = m; orders = [] }
  simulate_fills prev_mid curr_mid (o ∷ orders) m =
      let filled = is_filled prev_mid curr_mid o in
      let m' = if filled then record_fill o.side o.price o.amount m else m in
      let rest = simulate_fills prev_mid curr_mid orders m' in
      if filled then rest else record rest { orders = o ∷ rest.orders }

  abbrev pub erred : Arm R → Arm R
  erred arm = record arm {
    metrics = record arm.metrics { order_errors = arm.metrics.order_errors + 1 };
  }

  -- `a or b` on optional numbers: 0.0 counts as missing.
  abbrev pub or_mid : Option R → Option R → Option R
  or_mid none b = b
  or_mid (some a) b = if eq a nought then b else some a

  -- The fills, unless the price stands.
  abbrev pub settled : R → R → Arm R → Arm R
  settled prev_mid curr_mid arm =
      if lt nought prev_mid && not (eq prev_mid curr_mid)
      then simulate_fills prev_mid curr_mid arm.orders arm.metrics
      else arm

  -- What a tick does with one arm, once its ticker has been fetched: the fills, and a new grid if
  -- its own ticker came.
  unfoldable pub trade : R → R → R → List R × List R → List R × List R → Option R → Arm R → Arm R
  unfolding simulate_fills build_grid
  trade prev_mid curr_mid now spreads amounts own_mid arm =
      let rest = settled prev_mid curr_mid arm in
      elim own_mid [
        | none ↦ erred (record rest { orders = [] })
        | some _ ↦ build_grid curr_mid now spreads amounts rest.metrics
      ]

  module _ (s : Strategy R) where
    -- The spreads and the amounts of the two sides, at an aggressiveness.
    unfoldable pub spreads_of : R → List R × List R
    unfolding compute_levels
    spreads_of agg = compute_levels s.linspace s.spread_engine agg s.n_levels unity

    unfoldable pub amounts_of : R → List R × List R
    unfolding compute_amounts
    amounts_of agg = (
      compute_amounts s.total s.depth agg s.n_levels unity buy nought unity,
      compute_amounts s.total s.depth agg s.n_levels unity sell nought unity,
    )

    abbrev engine_at : R → R → Comparator R → VolatilityEngine R
    engine_at now global_mid c = update_price s.volatility global_mid now c.vol_engine

    abbrev pub agg_at : Readings R → R → Comparator R → R
    agg_at at global_mid c =
        compute s.volatility (rolling_vol s.numerics (engine_at at.engine global_mid c))

    abbrev pub mid_before : R → Comparator R → R
    mid_before global_mid c = if lt nought c.curr_mid then c.curr_mid else global_mid

    -- One arm, whose grid is built at `now`.
    abbrev pub trade_at : Readings R → R → R → Option R → Comparator R → Arm R → Arm R
    trade_at at now global_mid own_mid c arm =
        let agg = agg_at at global_mid c in
        trade (mid_before global_mid c) global_mid now (spreads_of agg) (amounts_of agg) own_mid arm

    -- The tick from a usable mid-price on.
    unfoldable pub act : Readings R → R → Option R → Option R → Comparator R → Comparator R
    unfolding update_price rolling_vol compute spreads_of amounts_of trade
    act at global_mid ccxt_mid cpp_mid c = record {
      ccxt = trade_at at at.ccxt global_mid ccxt_mid c c.ccxt;
      cpp = trade_at at at.cpp global_mid cpp_mid c c.cpp;
      vol_engine = engine_at at.engine global_mid c;
      prev_mid = mid_before global_mid c;
      curr_mid = global_mid;
    }

    abbrev pub give_up : Comparator R → Comparator R
    give_up c = record c { ccxt = erred c.ccxt; cpp = erred c.cpp }

    abbrev pub act_on : Option R → Readings R → Option R → Option R → Comparator R → Comparator R
    act_on none at ccxt_mid cpp_mid c = give_up c
    act_on (some mid) at ccxt_mid cpp_mid c =
        if le mid nought then give_up c else act at mid ccxt_mid cpp_mid c

    unfoldable pub tick : Readings R → TickerAnswer R → TickerAnswer R → Comparator R → Comparator R
    unfolding fetch_ticker_safe act
    tick at ccxt_answer cpp_answer c =
        let (ccxt_mid, ccxt_metrics) = fetch_ticker_safe ccxt_answer c.ccxt.metrics in
        let (cpp_mid, cpp_metrics) = fetch_ticker_safe cpp_answer c.cpp.metrics in
        act_on (or_mid ccxt_mid cpp_mid) at ccxt_mid cpp_mid (record c {
          ccxt = record c.ccxt { metrics = ccxt_metrics };
          cpp = record c.cpp { metrics = cpp_metrics };
        })

    -- The ticks of `_strategy_loop`.
    unfoldable pub run :
        List (Readings R × TickerAnswer R × TickerAnswer R) → Comparator R → Comparator R
    unfolding tick
    run [] c = c
    run ((at, ccxt_answer, cpp_answer) ∷ rest) c = run rest (tick at ccxt_answer cpp_answer c)

  -- The four checkpoints; the clock is read for the uptime of the C++ arm, and then for the other.
  unfoldable pub verdict : R → R → Comparator R → Bool × Bool × Bool × Bool
  verdict cpp_now ccxt_now c =
      let a = c.ccxt.metrics in
      let b = c.cpp.metrics in
      (
        le (fill_rate_pct a) (fill_rate_pct b),
        leb b.reconnection_count a.reconnection_count,
        le (uptime_pct ccxt_now a) (uptime_pct cpp_now b),
        le (ticker_success_rate_pct a) (ticker_success_rate_pct b),
      )
