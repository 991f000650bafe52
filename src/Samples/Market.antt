-- ===== src/Samples/Market.antt =====
-- A library for the detector, numerics, and an engine with some prices and candles.
use mmp_meridian.Prelude.{ℕ, ◌≡◌, refl, some, none, List, [], ◌∷◌, All, arith}
use mmp_meridian.Prelude.Int.{ℤ, pos, ◌+ℤ◌}
use mmp_meridian.Float.Fixed.{fixed}
use mmp_meridian.Samples.{micro}
use mmp_meridian.Samples.Points.{sum}
use mmp_meridian.Exchange.{Candle}
use mmp_meridian.Quant.Detector.{Library}
use mmp_meridian.Quant.Volatility.{Numerics, VolatilityEngine}
use mmp_meridian.Quant.Estimates.{IsStatistics}

-- hmmlearn is missing.
abbrev pub missing : Library ℤ ℕ
missing = record {
  build_model = none;
  decode = λ model os. none;
  posterior = λ model os n. none;
  fit = λ model os. none;
}

-- A library that always decodes a crash, and cannot fit.
abbrev pub sure : Library ℤ ℕ
sure = record {
  build_model = some 1;
  decode = λ model os. some 3;
  posterior = λ model os n. some (micro 900_000);
  fit = λ model os. none;
}

-- Numerics whose standard deviation is a plain sum.
abbrev pub numerics : Numerics ℤ
numerics = record { log = λ a. a; sqrt = λ a. a; mean = sum; std = sum }

sum-zeros : (xs : List ℤ) → All (λ x. x ≡ pos 0) xs → sum xs ≡ pos 0
unfolding sum ◌+ℤ◌
sum-zeros [] h = refl
sum-zeros (x ∷ xs) (h, hs) = ground (arith, h, sum-zeros xs hs)

pub numerics-IsStatistics : IsStatistics ℤ numerics
numerics-IsStatistics = record { sqrt_nonneg = λ a h. h; std-zeros = sum-zeros }

abbrev rising : Candle ℤ
rising = record {
  timestamp = micro 0;
  open_price = micro 25_000;
  high = micro 27_000;
  low = micro 24_000;
  close = micro 26_000;
  volume = micro 1_000_000;
}

abbrev pub engine : VolatilityEngine ℤ
engine = record {
  closes = micro 25_000 ∷ micro 25_000 ∷ micro 25_000 ∷ [];
  candles = rising ∷ rising ∷ rising ∷ [];
  last_update_s = micro 0;
  last_net_direction = micro 0;
}
