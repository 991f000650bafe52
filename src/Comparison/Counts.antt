-- ===== src/Comparison/Counts.antt =====
-- The counters of an arm agree with each other.
use mmp_meridian.Prelude.{
  ℕ, suc, ◌+◌, ◌≤◌, ◌≡◌, not, ◌&&◌, Option, none, some, List, [], ◌∷◌, ◌++◌, length, length-append,
  if◌then◌else◌, arith, by_test, Bool-cases, inl, inr,
}
use mmp_meridian.Float.{Float, nought}
use mmp_meridian.Exchange.{Side, buy, sell}
use mmp_meridian.Orders.Grid.{zip}
use mmp_meridian.Comparison.Metrics.{
  Metrics, record_connect, record_disconnect, record_ticker, record_fill,
}
use mmp_meridian.Comparison.Strategy.{
  OpenOrder, Readings, Arm, TickerAnswer, Strategy, Comparator, fetch_ticker_safe, build_side,
  build_grid, is_filled, simulate_fills, settled, erred, trade, spreads_of, amounts_of, agg_at,
  mid_before, trade_at, act, act_on, give_up, tick, run, or_mid,
}

-- With `n` open orders: each success has a latency and each fill a price; every attempt succeeded or
-- lost the connection at most once; no order was filled that was not placed or is still open.
pub record IsCounted {R : Type 0} (n : ℕ) (m : Metrics R) : Type 0 where
  pub attempts : m.ticker_attempts ≡ m.ticks_attempted
  pub latencies : length m.ticker_latencies_ms ≡ m.ticker_successes
  pub losses : m.ticker_successes + m.reconnection_count ≤ m.ticker_attempts
  pub prices : length m.fill_prices ≡ m.fill_count
  pub fills : m.fill_count + n ≤ m.orders_placed

abbrev ArmIsCounted : {R : Type 0} → Arm R → Type 0
ArmIsCounted a = IsCounted (length a.orders) a.metrics

module _ {R : Type 0} where
  fewer-IsCounted : {n k : ℕ} {m : Metrics R} → k ≤ n → IsCounted n m → IsCounted k m
  fewer-IsCounted h v = record {
    attempts = v.attempts;
    latencies = v.latencies;
    losses = v.losses;
    prices = v.prices;
    fills = omega (arith, v.fills, h);
  }

module _ {R : Type 0} ⦃f : Float R⦄ where
  open f use {add, mul, div, lt, le}

  erred-IsCounted : (a : Arm R) → ArmIsCounted a → ArmIsCounted (erred a)
  erred-IsCounted a v = record {
    attempts = v.attempts;
    latencies = v.latencies;
    losses = v.losses;
    prices = v.prices;
    fills = v.fills;
  }

  fetch-IsCounted :
      (answer : TickerAnswer R) (n : ℕ) (m : Metrics R)
      → IsCounted n m
      → IsCounted n (fetch_ticker_safe answer m).1
  unfolding fetch_ticker_safe record_ticker record_connect record_disconnect
  fetch-IsCounted answer n m v =
      ground (arith, v, length-append m.ticker_latencies_ms (answer.elapsed_ms ∷ []))

  build_side-IsCounted :
      (side : Side) (mid now : R) (levels : List (R × R)) (a : Arm R)
      → ArmIsCounted a
      → ArmIsCounted (build_side side mid now levels a)
  unfolding build_side
  build_side-IsCounted side mid now [] a v = v
  build_side-IsCounted side mid now ((spread, amt) ∷ levels) a v =
      let price = mul mid (add (f.decimal 1 0) (div spread (f.decimal 100 0))) in
      let amount = if lt nought price then div amt price else nought in
      let order : OpenOrder R = record {
        side = side;
        price = price;
        amount = amount;
        placed_at = now;
      } in
      let placed : Arm R = record {
        orders = a.orders ++ order ∷ [];
        metrics = record a.metrics { orders_placed = a.metrics.orders_placed + 1 };
      } in
      build_side-IsCounted side mid now levels (if le amount nought then a else placed) (
        by_test ArmIsCounted (le amount nought) a placed (λ e. v)
          (λ e. ground (arith, v, length-append a.orders (order ∷ []))))

  build_grid-IsCounted :
      (mid now : R) (spreads amounts : List R × List R) (n : ℕ) (m : Metrics R)
      → IsCounted n m
      → ArmIsCounted (build_grid mid now spreads amounts m)
  unfolding build_grid
  build_grid-IsCounted mid now (buys, sells) (buy_amts, sell_amts) n m v =
      build_side-IsCounted sell mid now (zip sells sell_amts) _ (
        build_side-IsCounted buy mid now (zip buys buy_amts) (record { metrics = m; orders = [] })
          (fewer-IsCounted (omega arith) v))

  record_fill-IsCounted :
      (side : Side) (price amount : R) (n : ℕ) (m : Metrics R)
      → IsCounted (suc n) m
      → IsCounted n (record_fill side price amount m)
  unfolding record_fill
  record_fill-IsCounted side price amount n m v =
      ground (arith, v, length-append m.fill_prices (price ∷ []))

  -- Some orders that may be filled, beside `k` that are kept.
  simulate-IsCounted :
      (prev_mid curr_mid : R) (orders : List (OpenOrder R)) (k : ℕ) (m : Metrics R)
      → IsCounted (length orders + k) m
      → let a = simulate_fills prev_mid curr_mid orders m in
        IsCounted (length a.orders + k) a.metrics
  unfolding simulate_fills
  simulate-IsCounted prev_mid curr_mid [] k m v = v
  simulate-IsCounted prev_mid curr_mid (o ∷ orders) k m v =
      elim (Bool-cases (is_filled prev_mid curr_mid o)) [
        | inl e ↦
            let m' = record_fill o.side o.price o.amount m in
            rw e (
              simulate-IsCounted prev_mid curr_mid orders k m' (
                record_fill-IsCounted o.side o.price o.amount (length orders + k) m
                  (fewer-IsCounted (omega arith) v)))
        | inr e ↦ rw e (
            fewer-IsCounted (omega arith) (
              simulate-IsCounted prev_mid curr_mid orders (suc k) m
                (fewer-IsCounted (omega arith) v)))
      ]

  settled-IsCounted :
      (prev_mid curr_mid : R) (a : Arm R)
      → ArmIsCounted a
      → ArmIsCounted (settled prev_mid curr_mid a)
  settled-IsCounted prev_mid curr_mid a v =
      by_test ArmIsCounted (lt nought prev_mid && not (f.eq prev_mid curr_mid))
        (simulate_fills prev_mid curr_mid a.orders a.metrics) a
        (λ e. fewer-IsCounted (omega arith) (
          simulate-IsCounted prev_mid curr_mid a.orders 0 a.metrics
            (fewer-IsCounted (omega arith) v)))
        (λ e. v)

  trade-IsCounted :
      (prev_mid curr_mid now : R) (spreads amounts : List R × List R) (own : Option R) (a : Arm R)
      → ArmIsCounted a
      → ArmIsCounted (trade prev_mid curr_mid now spreads amounts own a)
  unfolding trade
  trade-IsCounted prev_mid curr_mid now spreads amounts none a v =
      erred-IsCounted (record (settled prev_mid curr_mid a) { orders = [] })
        (fewer-IsCounted (omega arith) (settled-IsCounted prev_mid curr_mid a v))
  trade-IsCounted prev_mid curr_mid now spreads amounts (some own) a v =
      let b = settled prev_mid curr_mid a in
      build_grid-IsCounted curr_mid now spreads amounts (length b.orders) b.metrics
        (settled-IsCounted prev_mid curr_mid a v)

  module _ (s : Strategy R) where
    abbrev pub BothCounted : Comparator R → Type 0
    BothCounted c = ArmIsCounted c.ccxt × ArmIsCounted c.cpp

    give_up-BothCounted : (c : Comparator R) → BothCounted c → BothCounted (give_up s c)
    give_up-BothCounted c (v, w) = (erred-IsCounted c.ccxt v, erred-IsCounted c.cpp w)

    trade_at-IsCounted :
        (at : Readings R) (now mid : R) (own : Option R) (c : Comparator R) (arm : Arm R)
        → ArmIsCounted arm
        → ArmIsCounted (trade_at s at now mid own c arm)
    trade_at-IsCounted at now mid own c arm =
        let agg = agg_at s at mid c in
        trade-IsCounted (mid_before s mid c) mid now (spreads_of s agg) (amounts_of s agg) own arm

    act-BothCounted :
        (at : Readings R) (mid : R) (a b : Option R) (c : Comparator R)
        → BothCounted c
        → BothCounted (act s at mid a b c)
    unfolding act
    act-BothCounted at mid a b c (v, w) = (
      trade_at-IsCounted at at.ccxt mid a c c.ccxt v,
      trade_at-IsCounted at at.cpp mid b c c.cpp w,
    )

    act_on-BothCounted :
        (mid : Option R) (at : Readings R) (a b : Option R) (c : Comparator R)
        → BothCounted c
        → BothCounted (act_on s mid at a b c)
    act_on-BothCounted none at a b c v = give_up-BothCounted c v
    act_on-BothCounted (some mid) at a b c v =
        by_test BothCounted (le mid nought) (give_up s c) (act s at mid a b c)
          (λ e. give_up-BothCounted c v) (λ e. act-BothCounted at mid a b c v)

    tick-BothCounted :
        (at : Readings R) (a b : TickerAnswer R) (c : Comparator R)
        → BothCounted c
        → BothCounted (tick s at a b c)
    unfolding tick
    tick-BothCounted at a b c (v, w) =
        let fetched = fetch_ticker_safe a c.ccxt.metrics in
        let fetched' = fetch_ticker_safe b c.cpp.metrics in
        act_on-BothCounted (or_mid fetched.0 fetched'.0) at fetched.0 fetched'.0 _ (
          fetch-IsCounted a (length c.ccxt.orders) c.ccxt.metrics v,
          fetch-IsCounted b (length c.cpp.orders) c.cpp.metrics w,
        )

    -- Over any ticks, whatever the two connectors answer, the counters of both arms keep agreeing:
    -- all attempts are counted, each success has a latency and each fill a price, successes and
    -- lost connections together are at most the attempts, and no order is filled that was not placed
    -- or is still open.
    pub run-BothCounted :
        (answers : List (Readings R × TickerAnswer R × TickerAnswer R)) (c : Comparator R)
        → BothCounted c
        → BothCounted (run s answers c)
    unfolding run
    run-BothCounted [] c v = v
    run-BothCounted ((at, a, b) ∷ answers) c v =
        run-BothCounted answers (tick s at a b c) (tick-BothCounted at a b c v)
