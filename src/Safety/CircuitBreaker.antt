-- ===== src/Safety/CircuitBreaker.antt =====
-- safety/circuit_breaker.py: halts an exchange when the day's loss or the drawdown from the peak
-- reaches its limit. The current UTC day is an argument of `record_equity`.
use mmp_meridian.Prelude.{
  ℕ, ◌≡◌, ◌≢◌, refl, Bool, true, false, ◌&&◌, Option, none, some, ◌==◌, if◌then◌else◌, arith,
}
use mmp_meridian.Float.{Float, ◌≼◌, IsOrdered, nought}
use mmp_meridian.Float.Order.{le_of_lt}
use mmp_meridian.Config.{SafetyConfig}

-- The formatted text of a trip, with the percentage and the limit that stand in it.
pub data Reason (R : Type 0) : Type 0 where
  daily_loss drawdown : R → R → Reason R

pub record CircuitBreaker (R : Type 0) : Type 0 where
  pub start_equity : Option R
  pub peak_equity : Option R
  pub day_start : ℕ
  pub tripped : Bool
  pub trip_reason : Option (Reason R)

module _ {R : Type 0} where
  unfoldable trip : Reason R → CircuitBreaker R → CircuitBreaker R
  trip reason s = if s.tripped then s else record s { tripped = true; trip_reason = some reason }

  unfoldable pub reset : CircuitBreaker R → CircuitBreaker R
  reset s = record s {
    tripped = false;
    trip_reason = none;
    start_equity = none;
    peak_equity = none;
  }

  abbrev or_first : Option R → R → R
  or_first none e = e
  or_first (some a) e = a

module _ {R : Type 0} ⦃f : Float R⦄ (config : SafetyConfig R) where
  open f use {add, sub, mul, div, lt, le, eq, decimal}

  abbrev equity_of : R → R → R → R
  equity_of usd token mid_price = add usd (mul token mid_price)

  -- How far `equity` lies below `base`, in percent of `base`.
  abbrev loss_pct : R → R → R
  loss_pct base equity = mul (div (sub base equity) base) (decimal 100 0)

  abbrev higher : Option R → R → R
  higher none e = e
  higher (some p) e = if lt p e then e else p

  -- The two checks, once `start` and `peak` are known.
  unfoldable check_limits : R → R → R → CircuitBreaker R → CircuitBreaker R
  unfolding trip
  check_limits start peak equity s =
      if lt nought start && le config.max_daily_loss_pct (loss_pct start equity)
      then trip (daily_loss (loss_pct start equity) config.max_daily_loss_pct) s
      else if lt nought peak && le config.max_drawdown_pct (loss_pct peak equity)
      then trip (drawdown (loss_pct peak equity) config.max_drawdown_pct) s
      else s

  unfoldable pub record_equity : R → R → R → ℕ → CircuitBreaker R → CircuitBreaker R
  unfolding check_limits
  record_equity usd token mid_price today s =
      let equity = equity_of usd token mid_price in
      let start = or_first s.start_equity equity in
      let peak = higher s.peak_equity equity in
      if today == s.day_start
      then check_limits start peak equity
          (record s { start_equity = some start; peak_equity = some peak })
      else record {
        start_equity = some equity;
        peak_equity = some equity;
        day_start = today;
        tripped = false;
        trip_reason = none;
      }

  -- The equity that the day started with is never above the peak, both are recorded together, and
  -- a reason is stored exactly while the breaker is tripped.
  pub record IsValid (s : CircuitBreaker R) : Type 0 where
    pub start_le_peak : (a p : R) → s.start_equity ≡ some a → s.peak_equity ≡ some p → a ≼ p
    pub together : s.start_equity ≡ none → s.peak_equity ≡ none
    pub together' : s.peak_equity ≡ none → s.start_equity ≡ none
    pub reasoned : s.trip_reason ≡ none → s.tripped ≡ false
    pub clear : s.tripped ≡ false → s.trip_reason ≡ none

  start_le_peak_lem :
      (o : IsOrdered R) (start peak : Option R) (e : R)
      → ((a p : R) → start ≡ some a → peak ≡ some p → a ≼ p)
      → (start ≡ none → peak ≡ none)
      → (peak ≡ none → start ≡ none)
      → or_first start e ≼ higher peak e
  start_le_peak_lem o none none e h t u = o.le_refl e
  start_le_peak_lem o none (some p) e h t u = absurd (ground (arith, t refl))
  start_le_peak_lem o (some a) none e h t u = absurd (ground (arith, u refl))
  start_le_peak_lem o (some a) (some p) e h t u =
      ground (arith, h a p refl refl, o.le_trans a p e, le_of_lt o p e)

  -- On ordered numbers, from a breaker that is as `IsValid` says, any record of the equity leaves
  -- it so: also on the first call, after a manual reset, and on the first call of a day.
  record_equity-IsValid :
      (o : IsOrdered R) (usd token mid : R) (today : ℕ) (s : CircuitBreaker R)
      → IsValid s
      → IsValid (record_equity usd token mid today s)
  unfolding record_equity
  record_equity-IsValid o usd token mid today s v =
      let equity = equity_of usd token mid in
      ground (
        arith,
        o.le_refl equity,
        start_le_peak_lem o s.start_equity s.peak_equity equity v.start_le_peak v.together
            v.together',
      )

  -- On the same day the breaker stays tripped, with the reason of its first trip.
  record_equity_latched :
      (usd token mid : R) (s : CircuitBreaker R)
      → s.tripped ≡ true
      → let s' = record_equity usd token mid s.day_start s in
        (s'.tripped ≡ true) × (s'.trip_reason ≡ s.trip_reason)
  unfolding record_equity
  record_equity_latched usd token mid s t = ground arith

  -- The first call of a new day lifts a halt and starts the day from the present equity.
  pub record_equity_new_day :
      (usd token mid : R) (today : ℕ) (s : CircuitBreaker R)
      → today ≢ s.day_start
      → let s' = record_equity usd token mid today s in
        (s'.tripped ≡ false) × (s'.start_equity ≡ some (equity_of usd token mid))
  unfolding record_equity
  record_equity_new_day usd token mid today s h = ground arith
