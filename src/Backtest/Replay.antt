-- ===== src/Backtest/Replay.antt =====
-- The loop of `run_backtest`. What it builds before the loop is a `Setup`; the rounding and the text of a
-- row of the trace are left out.
use mmp_meridian.Prelude.{
  ℕ, suc, ◌+◌, ◌%◌, ◌&&◌, Bool, List, [], ◌∷◌, ◌++◌, map, length, ltb, ◌==◌, if◌then◌else◌, String,
}
use mmp_meridian.Float.{Float, nought, unity, max, min}
use mmp_meridian.Exchange.{Candle, Order, Side, buy, sell}
use mmp_meridian.Config.{VolatilityConfig, DepthConfig}
use mmp_meridian.Quant.Aggressiveness.{compute}
use mmp_meridian.Quant.Volatility.{Numerics, VolatilityEngine, update_price, rolling_vol}
use mmp_meridian.Spread.Engine.{SpreadEngine, compute_levels_dual, prices_from_spreads}
use mmp_meridian.Depth.Engine.{compute_amounts, usd_to_token_amount}
use mmp_meridian.Inventory.{Tracker, update, skew_factor}
use mmp_meridian.Orders.Grid.{zip}
use mmp_meridian.Fills.Simulator.{SimulatedFill, simulate}
use mmp_meridian.Backtest.Book.{Ticket, synthesise_book, make_grid_orders}

-- The models and what they stand on; `order_id` formats the id of an order, `now` and `clock` are
-- readings of the clock, by the number of the candle, and of the fill too.
pub record Setup (R : Type 0) : Type 0 where
  pub exchange : String
  pub volatility : VolatilityConfig R
  pub numerics : Numerics R
  pub spread_engine : SpreadEngine R
  pub depth : DepthConfig R
  pub linspace : ℕ → List R
  pub total : List R → R
  pub fee_rate : R
  pub order_id : ℕ → Side → ℕ → String
  pub now : ℕ → R
  pub clock : ℕ → ℕ → R
  -- Whether a trace is written.
  pub traced : Bool

pub record BacktestStats (R : Type 0) : Type 0 where
  pub total_fills : ℕ
  pub buy_fills : ℕ
  pub sell_fills : ℕ
  pub total_buy_qty : R
  pub total_sell_qty : R
  pub total_buy_usd : R
  pub total_sell_usd : R
  pub total_fees_usd : R
  pub realised_pnl_usd : R

-- A row of the trace.
pub record Row (R : Type 0) : Type 0 where
  pub ts : R
  pub mid : R
  pub vol : R
  pub agg : R
  pub skew : R
  pub fills_so_far : ℕ
  pub usd_balance : R
  pub token_balance : R
  pub mtm_usd : R

pub record Replay (R : Type 0) : Type 0 where
  pub vol_engine : VolatilityEngine R
  pub inventory : Tracker R
  pub stats : BacktestStats R
  pub usd_balance : R
  pub token_balance : R
  pub csv_rows : List (Row R)

-- What the middle of a candle computes.
pub record Plan (R : Type 0) : Type 0 where
  pub vol : R
  pub agg : R
  pub skew : R
  pub orders : List (Order R)

module _ {R : Type 0} ⦃f : Float R⦄ where
  open f use {add, sub, mul, div, decimal}

  -- One round of the loop over the fills.
  unfoldable pub book_fill : SimulatedFill R → Replay R → Replay R
  book_fill x r =
      let s = r.stats in
      let notional = mul x.price x.amount in
      elim x.side [
        | buy ↦ record r {
          stats = record s {
            total_fills = s.total_fills + 1;
            buy_fills = s.buy_fills + 1;
            total_fees_usd = add s.total_fees_usd x.fee;
            total_buy_qty = add s.total_buy_qty x.amount;
            total_buy_usd = add s.total_buy_usd notional;
          };
          usd_balance = sub r.usd_balance (add notional x.fee);
          token_balance = add r.token_balance x.amount;
        }
        | sell ↦ record r {
          stats = record s {
            total_fills = s.total_fills + 1;
            sell_fills = s.sell_fills + 1;
            total_fees_usd = add s.total_fees_usd x.fee;
            total_sell_qty = add s.total_sell_qty x.amount;
            total_sell_usd = add s.total_sell_usd notional;
            realised_pnl_usd = add s.realised_pnl_usd x.pnl_usd;
          };
          usd_balance = add r.usd_balance (sub notional x.fee);
          token_balance = sub r.token_balance x.amount;
        }
      ]

  unfoldable pub book_fills : List (SimulatedFill R) → Replay R → Replay R
  unfolding book_fill
  book_fills [] r = r
  book_fills (x ∷ xs) r = book_fills xs (book_fill x r)

  -- An order may cost what the whole balance is worth.
  abbrev pub affordable : R → R × R → R
  affordable usd (a, p) = min a (max nought (div usd (max p (decimal 1 9))))

  module _ (k : Setup R) where
    -- The amounts of one side, before the cap.
    abbrev pub wanted : R → R → Side → List R → List R
    wanted agg skew side prices =
        map (λ (u, p). usd_to_token_amount u p)
          (zip (compute_amounts k.total k.depth agg k.depth.levels skew side nought unity) prices)

    unfoldable pub plan : ℕ → Candle R → Replay R → Plan R
    unfolding rolling_vol compute skew_factor compute_levels_dual prices_from_spreads
        compute_amounts usd_to_token_amount make_grid_orders
    plan tick_id c r =
        let vol = rolling_vol k.numerics r.vol_engine in
        let agg = compute k.volatility vol in
        let skew = skew_factor r.inventory in
        let (buy_spreads, sell_spreads) =
          compute_levels_dual k.linspace k.spread_engine agg agg k.depth.levels in
        let (buy_prices, sell_prices) = prices_from_spreads c.close buy_spreads sell_spreads in
        let ticket : Ticket = record {
          exchange = k.exchange;
          order_id = k.order_id tick_id;
          tick_id = tick_id;
        } in
        record {
          vol = vol;
          agg = agg;
          skew = skew;
          orders =
              make_grid_orders ticket buy_prices
                (map (affordable r.usd_balance) (zip (wanted agg skew buy buy_prices) buy_prices))
                sell_prices
                (map (λ a. min a (max nought r.token_balance)) (wanted agg skew sell sell_prices));
        }

    abbrev trace : ℕ → Candle R → Plan R → Replay R → Replay R
    trace tick_id c p r =
        let row : Row R = record {
          ts = c.timestamp;
          mid = c.close;
          vol = p.vol;
          agg = p.agg;
          skew = p.skew;
          fills_so_far = r.stats.total_fills;
          usd_balance = r.usd_balance;
          token_balance = r.token_balance;
          mtm_usd = add r.usd_balance (mul r.token_balance c.close);
        } in
        if k.traced && (tick_id % 5 == 0) then record r { csv_rows = r.csv_rows ++ row ∷ [] } else r

    -- A candle after the warm-up.
    unfoldable pub trade : ℕ → Candle R → Replay R → Replay R
    unfolding update plan synthesise_book simulate book_fills
    trade tick_id c r =
        let counted : Replay R = record r {
          inventory =
              update
                (record { usd = r.usd_balance; token = r.token_balance; quote_currency = "USDT" })
                r.inventory;
        } in
        let p = plan tick_id c counted in
        let fills =
          simulate k.fee_rate (k.clock tick_id) p.orders (synthesise_book c k.exchange) c.close in
        trace tick_id c p (book_fills fills counted)

    unfoldable pub replay_candle : ℕ → Candle R → Replay R → Replay R
    unfolding update_price trade
    replay_candle tick_id c r =
        let priced : Replay R = record r {
          vol_engine = update_price k.volatility c.close (k.now tick_id) r.vol_engine;
        } in
        if ltb (length priced.vol_engine.closes) k.volatility.window_minutes
        then priced
        else trade tick_id c priced

    unfoldable pub replay : ℕ → List (Candle R) → Replay R → Replay R
    unfolding replay_candle
    replay tick_id [] r = r
    replay tick_id (c ∷ candles) r = replay (suc tick_id) candles (replay_candle tick_id c r)
