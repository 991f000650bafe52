-- ===== src/Backtest/Book.antt =====
-- The synthetic order book of a candle, and the grid as orders.
use mmp_meridian.Prelude.{ℕ, zero, suc, ◌||◌, String, List, [], ◌∷◌, ◌++◌, if◌then◌else◌}
use mmp_meridian.Float.{Float, nought, max, min}
use mmp_meridian.Exchange.{Candle, Order, Side, buy, sell, opened}
use mmp_meridian.Orders.Grid.{zip}
use mmp_meridian.Fills.Simulator.{Level, OrderBook}

abbrev pub book_levels : ℕ
book_levels = 20

-- What the orders of a candle share; `order_id` formats the id of a side and an index.
pub record Ticket : Type 0 where
  pub exchange : String
  pub order_id : Side → ℕ → String
  pub tick_id : ℕ

module _ {R : Type 0} ⦃f : Float R⦄ where
  open f use {add, sub, mul, div, lt, le, decimal}

  -- The loop over the levels of one side: the price at the index `i` is `away best_price (i * step)`.
  unfoldable pub ladder : (R → R → R) → R → R → ℕ → ℕ → R → List (Level R)
  ladder away best step i zero qty = []
  ladder away best step i (suc left) qty =
      (away best (mul (decimal i 0) step), qty)
      ∷ ladder away best step (suc i) left (mul qty (decimal 85 2))

  abbrev pub spread_pct : Candle R → R
  spread_pct c = max (decimal 1 3) (min (decimal 2 2) (div (sub c.high c.low) c.close))

  abbrev pub half_spread : Candle R → R
  half_spread c = div (mul c.close (spread_pct c)) (decimal 2 0)

  abbrev pub step_of : Candle R → R
  step_of c = mul c.close (decimal 5 4)

  unfoldable pub synthesise_book : Candle R → String → OrderBook R
  unfolding ladder
  synthesise_book c exchange =
      let level_qty = div (max c.volume (decimal 1000 0)) (decimal book_levels 0) in
      let half = half_spread c in
      let step = step_of c in
      if le c.close nought
      then record { exchange = exchange; bids = []; asks = []; timestamp = c.timestamp }
      else record {
        exchange = exchange;
        bids = ladder sub (sub c.close half) step 0 book_levels level_qty;
        asks = ladder add (add c.close half) step 0 book_levels level_qty;
        timestamp = c.timestamp;
      }

  abbrev pub order_at : Ticket → Side → ℕ → R → R → Order R
  order_at t side i p a = record {
    id = t.order_id side i;
    exchange = t.exchange;
    symbol = "ALKIMI/USDT";
    side = side;
    price = p;
    amount = a;
    amount_usd = mul p a;
    status = opened;
    timestamp = decimal t.tick_id 0;
    filled_amount = nought;
    filled_price = nought;
    fee = nought;
    fee_currency = "";
  }

  unfoldable pub side_orders : Ticket → Side → ℕ → List (R × R) → List (Order R)
  side_orders t side i [] = []
  side_orders t side i ((p, a) ∷ levels) =
      let rest = side_orders t side (suc i) levels in
      if le p nought || le a nought then rest else order_at t side i p a ∷ rest

  unfoldable pub make_grid_orders : Ticket → List R → List R → List R → List R → List (Order R)
  unfolding side_orders
  make_grid_orders t buy_prices buy_amounts sell_prices sell_amounts =
      side_orders t buy 0 (zip buy_prices buy_amounts)
      ++ side_orders t sell 0 (zip sell_prices sell_amounts)
