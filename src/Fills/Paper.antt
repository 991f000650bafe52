-- ===== src/Fills/Paper.antt =====
-- core/paper_trader.py. The websocket feed, the database and the dashboard feed are outside: the books
-- are the answers of the feed, `stored` and `sent` say whether the database and the dashboard take a
-- fill, and `sim_id` formats the identifier of a fill.
use mmp_meridian.Prelude.{
  ℕ, ◌+◌, Bool, Option, none, some, String, List, [], ◌∷◌, ◌++◌, keep, length, if◌then◌else◌,
}
use mmp_meridian.Prelude.Deque.{append}
use mmp_meridian.Float.{Float, nought}
use mmp_meridian.Exchange.{Order, Fill}
use mmp_meridian.Fills.Simulator.{OrderBook, SimulatedFill, simulate, mid, empty}

pub record PaperTradingStats (R : Type 0) : Type 0 where
  pub total_fills : ℕ
  total_qty : R
  total_pnl_usd : R
  total_fees : R
  pub fill_timestamps : List R

-- The trader with what it has written to the database and to the dashboard.
pub record PaperTrader (R : Type 0) : Type 0 where
  pub exchange : String
  pub stats : PaperTradingStats R
  pub open_orders_ref : List (Order R)
  pub fills : List (Fill R)
  pub events : List (SimulatedFill R)

pub record Feeds (R : Type 0) : Type 0 where
  pub stored : Fill R → Bool
  pub sent : SimulatedFill R → Bool
  pub sim_id : String → R → String

module _ {R : Type 0} ⦃f : Float R⦄ where
  open f use {add, sub, le, decimal}

  abbrev fresh_stats : PaperTradingStats R
  fresh_stats = record {
    total_fills = 0;
    total_qty = nought;
    total_pnl_usd = nought;
    total_fees = nought;
    fill_timestamps = [];
  }

  unfoldable pub fill_rate_1m : R → PaperTradingStats R → ℕ
  fill_rate_1m now s = length (keep (λ ts. le (sub now (decimal 60 0)) ts) s.fill_timestamps)

  unfoldable pub update_stats : PaperTradingStats R → SimulatedFill R → PaperTradingStats R
  update_stats s a = record {
    total_fills = s.total_fills + 1;
    total_qty = add s.total_qty a.amount;
    total_pnl_usd = add s.total_pnl_usd a.pnl_usd;
    total_fees = add s.total_fees a.fee;
    fill_timestamps = append 1000 s.fill_timestamps a.filled_at;
  }

  unfoldable pub db_fill : Feeds R → String → SimulatedFill R → Fill R
  db_fill e exchange a = record {
    id = e.sim_id a.order_id a.filled_at;
    order_id = a.order_id;
    exchange = exchange;
    symbol = "ALKIMI/USDT";
    side = a.side;
    filled_price = a.price;
    filled_amount = a.amount;
    fee = a.fee;
    fee_currency = "USDT";
    timestamp = a.filled_at;
    pnl_usd = a.pnl_usd;
  }

  -- A fill the database refuses is logged and lost.
  unfoldable pub persist_fill : Feeds R → SimulatedFill R → PaperTrader R → PaperTrader R
  unfolding db_fill
  persist_fill e a t =
      let row = db_fill e t.exchange a in
      if e.stored row then record t { fills = t.fills ++ row ∷ [] } else t

  unfoldable pub emit_fill_event : Feeds R → SimulatedFill R → PaperTrader R → PaperTrader R
  emit_fill_event e a t = if e.sent a then record t { events = t.events ++ a ∷ [] } else t

  unfoldable pub record_fills : Feeds R → List (SimulatedFill R) → PaperTrader R → PaperTrader R
  unfolding persist_fill emit_fill_event update_stats
  record_fills e [] t = t
  record_fills e (a ∷ rest) t =
      let told = emit_fill_event e a (persist_fill e a t) in
      record_fills e rest (record told { stats = update_stats told.stats a })

  unfoldable pub on_book_update :
      Feeds R
      → R
      → (ℕ → R)
      → OrderBook R
      → List (Order R)
      → R
      → PaperTrader R
      → List (SimulatedFill R) × PaperTrader R
  unfolding simulate record_fills
  on_book_update e fee_rate clock book open_orders current_mid t =
      let made = simulate fee_rate clock open_orders book current_mid in
      (made, record_fills e made t)

  unfoldable pub set_open_orders : List (Order R) → PaperTrader R → PaperTrader R
  set_open_orders orders t = record t { open_orders_ref = orders }

  abbrev pub or_nought : Option R → R
  or_nought none = nought
  or_nought (some a) = a

  -- One turn of the polling loop, on what the feed answered.
  unfoldable pub poll : Feeds R → R → (ℕ → R) → Option (OrderBook R) → PaperTrader R → PaperTrader R
  unfolding on_book_update mid
  poll e fee_rate clock none t = t
  poll e fee_rate clock (some book) t =
      let updated =
        on_book_update e fee_rate clock book t.open_orders_ref (or_nought (mid book)) t in
      if empty t.open_orders_ref then t else updated.1

  -- The loop, with the clock of each turn.
  unfoldable pub poll_loop :
      Feeds R → R → List ((ℕ → R) × Option (OrderBook R)) → PaperTrader R → PaperTrader R
  unfolding poll
  poll_loop e fee_rate [] t = t
  poll_loop e fee_rate ((clock, book) ∷ rest) t =
      poll_loop e fee_rate rest (poll e fee_rate clock book t)
