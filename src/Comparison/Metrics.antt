-- ===== src/Comparison/Metrics.antt =====
-- `ConnectorMetrics`: what one arm of the comparison counts. The readings of the clock are arguments.
use mmp_meridian.Prelude.{ℕ, zero, suc, ◌+◌, Bool, true, false, List, [], ◌∷◌, ◌++◌, if◌then◌else◌}
use mmp_meridian.Float.{Float, nought, max}
use mmp_meridian.Exchange.{Side, buy, sell}

pub record Metrics (R : Type 0) : Type 0 where
  pub started_at : R
  pub reconnection_count : ℕ
  pub total_downtime_s : R
  pub last_disconnect_at : R
  pub is_connected : Bool
  pub ticker_attempts : ℕ
  pub ticker_successes : ℕ
  pub ticker_latencies_ms : List R
  pub ticks_attempted : ℕ
  pub orders_placed : ℕ
  pub order_errors : ℕ
  pub fill_count : ℕ
  pub total_volume_usd : R
  pub realized_pnl_usd : R
  pub fill_prices : List R

module _ {R : Type 0} ⦃f : Float R⦄ where
  open f use {add, sub, mul, div, lt, le, decimal}

  abbrev pub fresh_metrics : R → Metrics R
  fresh_metrics started_at = record {
    started_at = started_at;
    reconnection_count = 0;
    total_downtime_s = nought;
    last_disconnect_at = nought;
    is_connected = true;
    ticker_attempts = 0;
    ticker_successes = 0;
    ticker_latencies_ms = [];
    ticks_attempted = 0;
    orders_placed = 0;
    order_errors = 0;
    fill_count = 0;
    total_volume_usd = nought;
    realized_pnl_usd = nought;
    fill_prices = [];
  }

  unfoldable pub record_connect : R → Metrics R → Metrics R
  record_connect now m =
      let downtime =
        if lt nought m.last_disconnect_at
        then add m.total_downtime_s (sub now m.last_disconnect_at)
        else m.total_downtime_s in
      if m.is_connected then m else record m { total_downtime_s = downtime; is_connected = true }

  unfoldable pub record_disconnect : R → Metrics R → Metrics R
  record_disconnect now m =
      if m.is_connected
      then record m {
        reconnection_count = m.reconnection_count + 1;
        last_disconnect_at = now;
        is_connected = false;
      }
      else m

  unfoldable pub record_ticker : R → Bool → Metrics R → Metrics R
  record_ticker elapsed_ms success m =
      if success
      then record m {
        ticker_attempts = m.ticker_attempts + 1;
        ticker_successes = m.ticker_successes + 1;
        ticker_latencies_ms = m.ticker_latencies_ms ++ elapsed_ms ∷ [];
      }
      else record m { ticker_attempts = m.ticker_attempts + 1 }

  abbrev pnl_of : Side → R → R → R → R
  pnl_of sell pnl volume fee = add pnl (sub volume fee)
  pnl_of buy pnl volume fee = sub pnl (add volume fee)

  unfoldable pub record_fill : Side → R → R → Metrics R → Metrics R
  record_fill side price amount m =
      let volume = mul price amount in
      let fee = mul volume (decimal 1 3) in
      record m {
        fill_count = m.fill_count + 1;
        total_volume_usd = add m.total_volume_usd volume;
        fill_prices = m.fill_prices ++ price ∷ [];
        realized_pnl_usd = pnl_of side m.realized_pnl_usd volume fee;
      }

  abbrev elapsed_s : R → Metrics R → R
  elapsed_s now m = if lt nought m.started_at then sub now m.started_at else nought

  unfoldable pub uptime_pct : R → Metrics R → R
  uptime_pct now m =
      let e = elapsed_s now m in
      if le e nought
      then decimal 100 0
      else max nought (mul (div (sub e m.total_downtime_s) e) (decimal 100 0))

  -- `a / b * 100.0 if b else default`
  abbrev percent : ℕ → ℕ → R → R
  percent a zero default = default
  percent a (suc b) default = mul (div (decimal a 0) (decimal (suc b) 0)) (decimal 100 0)

  unfoldable pub ticker_success_rate_pct : Metrics R → R
  ticker_success_rate_pct m = percent m.ticker_successes m.ticker_attempts (decimal 100 0)

  unfoldable pub fill_rate_pct : Metrics R → R
  fill_rate_pct m = percent m.fill_count m.orders_placed nought
