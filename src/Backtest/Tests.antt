-- ===== src/Backtest/Tests.antt =====
-- The replay on concrete candles.
use mmp_meridian.Prelude.{◌*◌, refl, false, List, [], ◌∷◌}
use mmp_meridian.Prelude.Int.{ℤ, ◌+ℤ◌, ◌-ℤ◌}
use mmp_meridian.Float.Fixed.{fixed, fixed-IsOrdered, fixed-IsMonotone, fixed-IsPower, mul, div}
use mmp_meridian.Samples.{micro, spread, depth, volatility}
use mmp_meridian.Samples.Points.{points, points-IsLinspace, sum}
use mmp_meridian.Samples.Market.{numerics, engine}
use mmp_meridian.Samples.Bots.{bot}
use mmp_meridian.Exchange.{Candle}
use mmp_meridian.Backtest.Replay.{Setup, Replay, replay}
use mmp_meridian.Backtest.Idle.{IsSame, replay-IsSame}

abbrev candle : Candle ℤ
candle = record {
  timestamp = micro 60_000_000;
  open_price = micro 25_000;
  high = micro 27_000;
  low = micro 24_000;
  close = micro 26_000;
  volume = micro 50_000_000;
}

abbrev candles : List (Candle ℤ)
candles = candle ∷ candle ∷ candle ∷ []

-- Three closes are known, so that the second candle is the first one traded.
abbrev setup : Setup ℤ
setup = record {
  exchange = "kucoin";
  volatility = volatility;
  numerics = numerics;
  spread_engine = record {
    cfg = spread;
    maker_fee_bps = micro 10_000_000;
    min_profitable_spread_bps = micro 22_000_000;
  };
  depth = record depth { levels = 2 };
  linspace = points;
  total = sum;
  fee_rate = micro 1_000;
  order_id = λ tick_id side i. "bt";
  now = λ tick_id. micro (tick_id * 60_000_000);
  clock = λ tick_id n. micro n;
  traced = false;
}

abbrev start : Replay ℤ
start = record {
  vol_engine = engine;
  inventory = bot.inventory;
  stats = record {
    total_fills = 0;
    buy_fills = 0;
    sell_fills = 0;
    total_buy_qty = micro 0;
    total_sell_qty = micro 0;
    total_buy_usd = micro 0;
    total_sell_usd = micro 0;
    total_fees_usd = micro 0;
    realised_pnl_usd = micro 0;
  };
  usd_balance = micro 500_000_000;
  token_balance = micro 20000_000_000;
  csv_rows = [];
}

replay-IsSame_example : IsSame start (replay setup 0 candles start)
unfolding mul div ◌+ℤ◌ ◌-ℤ◌
replay-IsSame_example =
    replay-IsSame fixed-IsOrdered fixed-IsMonotone fixed-IsPower setup points-IsLinspace
      (refl, refl, refl) refl 0 candles start
      ((refl, refl, refl), ((refl, refl, refl), ((refl, refl, refl), tt)))
