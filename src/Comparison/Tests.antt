-- ===== src/Comparison/Tests.antt =====
-- The comparison on concrete answers.
use mmp_meridian.Prelude.{ℕ, ◌+◌, refl, some, none, [], ◌∷◌, arith}
use mmp_meridian.Prelude.Int.{ℤ}
use mmp_meridian.Float.Fixed.{fixed}
use mmp_meridian.Samples.{micro, spread, depth, volatility}
use mmp_meridian.Samples.Points.{points, sum}
use mmp_meridian.Samples.Market.{numerics}
use mmp_meridian.Quant.Volatility.{fresh_engine}
use mmp_meridian.Comparison.Metrics.{fresh_metrics}
use mmp_meridian.Comparison.Strategy.{Readings, Arm, TickerAnswer, Strategy, Comparator, run}
use mmp_meridian.Comparison.Counts.{BothCounted, run-BothCounted}

abbrev strategy : Strategy ℤ
strategy = record {
  volatility = volatility;
  numerics = numerics;
  spread_engine = record {
    cfg = spread;
    maker_fee_bps = micro 0;
    min_profitable_spread_bps = micro 2_000_000;
  };
  depth = depth;
  n_levels = 3;
  linspace = points;
  total = sum;
}

abbrev arm : Arm ℤ
arm = record { metrics = fresh_metrics (micro 1_000_000); orders = [] }

abbrev comparator : Comparator ℤ
comparator = record {
  ccxt = arm;
  cpp = arm;
  vol_engine = fresh_engine;
  prev_mid = micro 0;
  curr_mid = micro 0;
}

abbrev good : TickerAnswer ℤ
good = record { mid = some (micro 25_000); elapsed_ms = micro 3_000_000; now = micro 2_000_000 }

abbrev bad : TickerAnswer ℤ
bad = record { mid = none; elapsed_ms = micro 9_000_000; now = micro 32_000_000 }

-- The three readings of a tick, a millisecond apart.
abbrev at : ℕ → Readings ℤ
at n = record { engine = micro n; ccxt = micro (n + 1_000); cpp = micro (n + 2_000) }

run-BothCounted_example :
    BothCounted strategy
      (run strategy ((at 2_000_000, good, bad) ∷ (at 32_000_000, bad, good) ∷ []) comparator)
run-BothCounted_example =
    run-BothCounted strategy ((at 2_000_000, good, bad) ∷ (at 32_000_000, bad, good) ∷ [])
      comparator
      (
        record {
          attempts = refl;
          latencies = refl;
          losses = omega arith;
          prices = refl;
          fills = omega arith;
        },
        record {
          attempts = refl;
          latencies = refl;
          losses = omega arith;
          prices = refl;
          fills = omega arith;
        },
      )
