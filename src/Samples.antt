-- ===== src/Samples.antt =====
-- Data that the tests of the parts share.
pub mod Outside
pub mod Points
pub mod Bots
pub mod Market
pub mod Orchestrators
use mmp_meridian.Prelude.{ℕ, ◌*◌, ◌+◌, zero, suc, none, String, false}
use mmp_meridian.Prelude.Int.{ℤ, pos, negsuc}
use mmp_meridian.Exchange.{Balance, Order, Side, opened}
use mmp_meridian.Config.{SpreadConfig, DepthConfig, HmmConfig, VolatilityConfig, SafetyConfig}
use mmp_meridian.Float.Fixed.{fixed}

-- m / 10^6 and -(m / 10^6) in the fixed-point arithmetic.
abbrev pub micro : ℕ → ℤ
micro m = pos (m * 1_000_000)

abbrev pub below : ℕ → ℤ
below zero = pos 0
below (suc m) = negsuc (m * 1_000_000 + 999_999)

abbrev pub safety : SafetyConfig ℤ
safety = record {
  min_balance_usd = micro 50_000_000;
  min_balance_token = micro 10_000_000;
  max_requests_per_second = 5;
  heartbeat_interval_s = micro 10_000_000;
  max_missed_heartbeats = 2;
  max_daily_loss_pct = micro 5_000_000;
  max_drawdown_pct = micro 10_000_000;
  alert_webhook_url = none;
}

abbrev pub balance : Balance ℤ
balance = record { usd = micro 20_000_000; token = micro 5_000_000; quote_currency = "USDT" }

abbrev pub spread : SpreadConfig ℤ
spread = record {
  buy_min_pct = below 5_000_000;
  buy_max_pct = below 100_000;
  sell_min_pct = micro 300_000;
  sell_max_pct = micro 7_000_000;
  curve_strength = micro 4_000_000;
  buy_levels = none;
  sell_levels = none;
  buy_curve_strength = none;
  sell_curve_strength = none;
  buy_min_step = micro 0;
  sell_min_step = micro 0;
  tick_size = micro 100;
}

abbrev pub depth : DepthConfig ℤ
depth = record {
  levels = 15;
  total_budget_usd = micro 1000_000_000;
  curve_strength = micro 4_000_000;
  min_order_usd = micro 5_000_000;
  min_step_usd = micro 0;
}

abbrev pub hmm : HmmConfig ℤ
hmm = record {
  enabled = false;
  hmm_lookback = 30;
  hmm_min_observations = 10;
  refit_interval = 100;
  crash_buy_agg_floor = micro 600_000;
  crash_sell_agg_ceiling = micro 100_000;
  crash_buy_depth_multiplier = micro 1_500_000;
  crash_sell_depth_factor = micro 500_000;
  recovery_buy_agg_boost = micro 1_300_000;
  recovery_sell_agg_dampen = micro 800_000;
}

abbrev pub volatility : VolatilityConfig ℤ
volatility = record {
  window_minutes = 5;
  low_threshold = micro 20_000;
  high_threshold = micro 80_000;
  power = micro 2_000_000;
  base_aggressiveness = micro 500_000;
  trending_threshold = micro 600_000;
  choppy_threshold = micro 300_000;
  hmm = hmm;
}

abbrev pub order : String → Side → ℕ → ℕ → Order ℤ
order id side price amount = record {
  id = id;
  exchange = "kucoin";
  symbol = "ALKIMI/USDT";
  side = side;
  price = micro price;
  amount = micro amount;
  amount_usd = micro 0;
  status = opened;
  timestamp = micro 0;
  filled_amount = micro 0;
  filled_price = micro 0;
  fee = micro 0;
  fee_currency = "";
}
