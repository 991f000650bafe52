-- ===== src/Backtest/Idle.antt =====
-- The grid of a replay against the synthetic book of the same candle.
use mmp_meridian.Prelude.{
  ℕ, suc, ◌%◌, ◌&&◌, ◌==◌, ◌≡◌, refl, ◌∙◌, true, String, List, [], ◌∷◌, map, All, All-map,
  All-weaken, by_test,
}
use mmp_meridian.Float.{Float, ◌≼◌, IsOrdered, IsMonotone, IsPower, nought, max, min}
use mmp_meridian.Exchange.{Candle, buy, sell}
use mmp_meridian.Inventory.{update, skew_factor}
use mmp_meridian.Float.Order.{le_of_lt}
use mmp_meridian.Quant.Aggressiveness.{compute}
use mmp_meridian.Quant.Volatility.{update_price, rolling_vol}
use mmp_meridian.Spread.Engine.{
  SpreadEngine, compute_side_levels, compute_levels_dual, prices_from_spreads,
}
use mmp_meridian.Spread.Bounds.{IsLinspace, IsSided, sell_levels_above, buy_levels_below}
use mmp_meridian.Spread.Prices.{price, price_sided}
use mmp_meridian.Orders.Grid.{zip}
use mmp_meridian.Fills.Simulator.{OrderBook}
use mmp_meridian.Backtest.Book.{half_spread, step_of, synthesise_book, Ticket}
use mmp_meridian.Backtest.Replay.{
  Setup, Replay, affordable, wanted, plan, book_fills, trade, replay_candle, replay,
}
use mmp_meridian.Backtest.Passive.{
  IsPassive, IsAbove, IsBelow, make_grid_orders-IsPassive, simulate-idle,
}

module _ {R : Type 0} ⦃f : Float R⦄ where
  open f use {add, sub, lt, le}

  -- A positive close, and a half spread that is not lost in its rounding.
  abbrev IsVisible : Candle R → Type 0
  IsVisible c =
      (lt nought c.close ≡ true)
      × (lt c.close (add c.close (half_spread c)) ≡ true)
      × (lt (sub c.close (half_spread c)) c.close ≡ true)

  -- The same counters and balances.
  abbrev pub IsSame : Replay R → Replay R → Type 0
  IsSame r s =
      (s.stats ≡ r.stats) × (s.usd_balance ≡ r.usd_balance) × (s.token_balance ≡ r.token_balance)

module _ {R : Type 0} ⦃f : Float R⦄ (o : IsOrdered R) (m : IsMonotone R) (w : IsPower R) where
  open f use {add, sub, mul, div, lt, le, decimal}

  dual_sided :
      (linspace : ℕ → List R) (n : IsLinspace linspace) (e : SpreadEngine R) (agg : R) (k : ℕ)
      → IsSided e.cfg
      → nought ≼ e.cfg.sell_min_pct
      → let (buys, sells) = compute_levels_dual linspace e agg agg k in
        All (λ s. s ≼ nought) buys × All (λ s. nought ≼ s) sells
  unfolding compute_levels_dual compute_side_levels
  dual_sided linspace n e agg k (b, b', s) h = (
    All-weaken _ _ _ (λ l i. o.le_trans l _ nought i b')
        (buy_levels_below o m w _ _ _ (linspace k) b (n.nonneg k)),
    All-weaken _ _ _ (λ l i. o.le_trans nought _ l h i)
        (sell_levels_above o m w _ _ _ (linspace k) s (n.nonneg k)),
  )

  book_beyond :
      (c : Candle R) (exchange : String)
      → IsVisible c
      → IsAbove c.close (synthesise_book c exchange).asks
        × IsBelow c.close (synthesise_book c exchange).bids
  unfolding synthesise_book
  book_beyond c exchange (h, a, b) =
      let close = c.close in
      by_test (λ (book : OrderBook R). IsAbove close book.asks × IsBelow close book.bids)
        (le close nought) _ _ (λ _. (tt, tt))
        (λ _. (
          rw (m.zero-mul (step_of c), m.add-zero (add close (half_spread c))) a,
          rw (m.zero-mul (step_of c), m.sub-zero (sub close (half_spread c))) b,
        ))

  module _ (k : Setup R) (n : IsLinspace k.linspace) (sided : IsSided k.spread_engine.cfg)
      (above : nought ≼ k.spread_engine.cfg.sell_min_pct) where
    plan-IsPassive :
        (tick_id : ℕ) (c : Candle R) (r : Replay R)
        → nought ≼ c.close
        → All (IsPassive c.close) (plan k tick_id c r).orders
    unfolding plan prices_from_spreads
    plan-IsPassive tick_id c r h =
        let agg = compute k.volatility (rolling_vol k.numerics r.vol_engine) in
        let (b, s) = dual_sided k.linspace n k.spread_engine agg k.depth.levels sided above in
        let skew = skew_factor r.inventory in
        let spreads = compute_levels_dual k.linspace k.spread_engine agg agg k.depth.levels in
        let buys = map (price c.close) spreads.0 in
        let sells = map (price c.close) spreads.1 in
        let ticket : Ticket = record {
          exchange = k.exchange;
          order_id = k.order_id tick_id;
          tick_id = tick_id;
        } in
        make_grid_orders-IsPassive c.close ticket buys
          (map (affordable r.usd_balance) (zip (wanted k agg skew buy buys) buys)) sells
          (map (λ a. min a (max nought r.token_balance)) (wanted k agg skew sell sells))
          (All-map _ _ (price c.close) (λ x i. (price_sided o m c.close x h).0 i) _ b)
          (All-map _ _ (price c.close) (λ x i. (price_sided o m c.close x h).1 i) _ s)

    trade-IsSame :
        (tick_id : ℕ) (c : Candle R) (r : Replay R) → IsVisible c → IsSame r (trade k tick_id c r)
    unfolding trade book_fills
    trade-IsSame tick_id c r h =
        let counted : Replay R = record r {
          inventory =
              update
                (record { usd = r.usd_balance; token = r.token_balance; quote_currency = "USDT" })
                r.inventory;
        } in
        let (a, b) = book_beyond c k.exchange h in
        let nothing =
          simulate-idle o k.fee_rate (k.clock tick_id) (plan k tick_id c counted).orders
            (synthesise_book c k.exchange) c.close
            (plan-IsPassive tick_id c counted (le_of_lt o nought c.close h.0)) a b in
        rw nothing (
          by_test (IsSame r) (k.traced && (tick_id % 5 == 0)) _ _ (λ _. (refl, refl, refl))
            (λ _. (refl, refl, refl)))

    replay_candle-IsSame :
        (tick_id : ℕ) (c : Candle R) (r : Replay R)
        → IsVisible c
        → IsSame r (replay_candle k tick_id c r)
    unfolding replay_candle
    replay_candle-IsSame tick_id c r h =
        let priced : Replay R = record r {
          vol_engine = update_price k.volatility c.close (k.now tick_id) r.vol_engine;
        } in
        by_test (IsSame r) _ priced (trade k tick_id c priced) (λ _. (refl, refl, refl))
          (λ _. trade-IsSame tick_id c priced h)

    -- On an ordered, monotone arithmetic whose powers keep the sign, with spreads configured on their
    -- sides, and points of `linspace` that are not negative and as many as asked for, a replay of
    -- candles whose closes are positive and whose half spreads are not lost in rounding fills no
    -- order: all counters and both balances stay what they were.
    pub replay-IsSame :
        (tick_id : ℕ) (candles : List (Candle R)) (r : Replay R)
        → All IsVisible candles
        → IsSame r (replay k tick_id candles r)
    unfolding replay
    replay-IsSame tick_id [] r h = (refl, refl, refl)
    replay-IsSame tick_id (c ∷ candles) r (h, hs) =
        let (s, u, t) = replay_candle-IsSame tick_id c r h in
        let (s', u', t') = replay-IsSame (suc tick_id) candles (replay_candle k tick_id c r) hs in
        (s' ∙ s, u' ∙ u, t' ∙ t)
