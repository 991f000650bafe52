-- ===== src/Config.antt =====
-- config/schema.py: the parameters of one exchange and of the quant model. A `Field` constraint or
-- a validator is a test of `is_valid`, which says whether pydantic accepts the record.
use mmp_meridian.Prelude.{
  ℕ, Bool, true, ◌&&◌, ◌||◌, not, Option, none, some, List, [], ◌∷◌, keep, length, leb, ltb, String,
  str_eq, if◌then◌else◌,
}
use mmp_meridian.Prelude.Dict.{Dict, values}
use mmp_meridian.Float.{Float, nought, unity, abs}

pub record SpreadConfig (R : Type 0) : Type 0 where
  pub buy_min_pct : R
  pub buy_max_pct : R
  pub sell_min_pct : R
  pub sell_max_pct : R
  pub curve_strength : R
  pub buy_levels : Option ℕ
  pub sell_levels : Option ℕ
  pub buy_curve_strength : Option R
  pub sell_curve_strength : Option R
  pub buy_min_step : R
  pub sell_min_step : R
  pub tick_size : R

pub record DepthConfig (R : Type 0) : Type 0 where
  pub levels : ℕ
  pub total_budget_usd : R
  pub curve_strength : R
  pub min_order_usd : R
  pub min_step_usd : R

pub record HmmConfig (R : Type 0) : Type 0 where
  pub enabled : Bool
  pub hmm_lookback : ℕ
  pub hmm_min_observations : ℕ
  pub refit_interval : ℕ
  pub crash_buy_agg_floor : R
  pub crash_sell_agg_ceiling : R
  pub crash_buy_depth_multiplier : R
  pub crash_sell_depth_factor : R
  pub recovery_buy_agg_boost : R
  pub recovery_sell_agg_dampen : R

pub record VolatilityConfig (R : Type 0) : Type 0 where
  pub window_minutes : ℕ
  pub low_threshold : R
  pub high_threshold : R
  pub power : R
  pub base_aggressiveness : R
  pub trending_threshold : R
  pub choppy_threshold : R
  pub hmm : HmmConfig R

pub record SafetyConfig (R : Type 0) : Type 0 where
  pub min_balance_usd : R
  pub min_balance_token : R
  pub max_requests_per_second : ℕ
  pub heartbeat_interval_s : R
  pub max_missed_heartbeats : ℕ
  pub max_daily_loss_pct : R
  pub max_drawdown_pct : R
  pub alert_webhook_url : Option String

pub record ExchangeBotConfig (R : Type 0) : Type 0 where
  pub exchange : String
  pub symbol : String
  pub quote_currency : String
  pub enabled : Bool
  pub spread : SpreadConfig R
  pub depth : DepthConfig R
  pub safety : SafetyConfig R
  pub use_cpp_connector : Option Bool

pub record GlobalMidWeights (R : Type 0) : Type 0 where
  pub kucoin : R
  pub gate : R
  pub mexc : R
  pub kraken : R
  pub binance : R

pub record ExchangeInitialBalance (R : Type 0) : Type 0 where
  pub usd : R
  pub token : R

-- The whole configuration, bot.json.
pub record BotConfig (R : Type 0) : Type 0 where
  pub dry_run : Bool
  pub global_mid_weights : GlobalMidWeights R
  pub volatility : VolatilityConfig R
  pub exchanges : List (ExchangeBotConfig R)
  pub initial_balances : Dict (ExchangeInitialBalance R)

module _ {R : Type 0} where
  abbrev first_named : String → List (ExchangeBotConfig R) → Option (ExchangeBotConfig R)
  first_named name [] = none
  first_named name (ex ∷ exchanges) =
      if str_eq ex.exchange name then some ex else first_named name exchanges

  unfoldable get_exchange_config : String → BotConfig R → Option (ExchangeBotConfig R)
  get_exchange_config name config = first_named name config.exchanges

  unfoldable pub enabled_exchanges : BotConfig R → List (ExchangeBotConfig R)
  enabled_exchanges config = keep (λ ex. ex.enabled) config.exchanges

abbrev every : {A : Type 0} → (A → Bool) → List A → Bool
every test [] = true
every test (x ∷ xs) = test x && every test xs

abbrev optional : {A : Type 0} → (A → Bool) → Option A → Bool
optional test none = true
optional test (some a) = test a

abbrev level_count : ℕ → Bool
level_count n = leb 3 n && leb n 30

module _ {R : Type 0} ⦃f : Float R⦄ where
  open f use {lt, le, decimal}

  abbrev within : R → R → R → Bool
  within lo hi v = le lo v && le v hi

  abbrev strength : R → Bool
  strength = within (decimal 5 1) (decimal 10 0)

  unfoldable spread_is_valid : SpreadConfig R → Bool
  spread_is_valid c =
      lt c.buy_min_pct nought
      && lt c.buy_max_pct nought
      && strength c.curve_strength
      && optional level_count c.buy_levels
      && optional level_count c.sell_levels
      && optional strength c.buy_curve_strength
      && optional strength c.sell_curve_strength
      && le nought c.buy_min_step
      && le nought c.sell_min_step
      && lt nought c.tick_size

  unfoldable depth_is_valid : DepthConfig R → Bool
  depth_is_valid c =
      level_count c.levels
      && lt nought c.total_budget_usd
      && strength c.curve_strength
      && lt nought c.min_order_usd
      && le nought c.min_step_usd

  unfoldable hmm_is_valid : HmmConfig R → Bool
  hmm_is_valid c =
      (leb 10 c.hmm_lookback && leb c.hmm_lookback 120)
      && (leb 3 c.hmm_min_observations && leb c.hmm_min_observations 30)
      && (leb 50 c.refit_interval && leb c.refit_interval 500)
      && within (decimal 1 1) (decimal 1 0) c.crash_buy_agg_floor
      && within (decimal 0 0) (decimal 5 1) c.crash_sell_agg_ceiling
      && within (decimal 1 0) (decimal 3 0) c.crash_buy_depth_multiplier
      && within (decimal 0 0) (decimal 1 0) c.crash_sell_depth_factor
      && within (decimal 1 0) (decimal 2 0) c.recovery_buy_agg_boost
      && within (decimal 3 1) (decimal 1 0) c.recovery_sell_agg_dampen

  unfoldable volatility_is_valid : VolatilityConfig R → Bool
  unfolding hmm_is_valid
  volatility_is_valid c =
      (leb 1 c.window_minutes && leb c.window_minutes 60)
      && lt nought c.low_threshold
      && lt nought c.high_threshold
      && lt c.low_threshold c.high_threshold
      && within (decimal 1 0) (decimal 5 0) c.power
      && within (decimal 0 0) (decimal 1 0) c.base_aggressiveness
      && lt nought c.trending_threshold
      && le nought c.choppy_threshold
      && hmm_is_valid c.hmm

  unfoldable safety_is_valid : SafetyConfig R → Bool
  safety_is_valid c =
      le nought c.min_balance_usd
      && le nought c.min_balance_token
      && (leb 1 c.max_requests_per_second && leb c.max_requests_per_second 30)
      && le (decimal 1 0) c.heartbeat_interval_s
      && leb 1 c.max_missed_heartbeats
      && lt nought c.max_daily_loss_pct
      && le c.max_daily_loss_pct (decimal 100 0)
      && lt nought c.max_drawdown_pct
      && le c.max_drawdown_pct (decimal 100 0)

  abbrev unit_interval : R → Bool
  unit_interval a = le nought a && le a unity

  abbrev total_of : GlobalMidWeights R → R
  total_of w = f.add (f.add (f.add (f.add w.kucoin w.gate) w.mexc) w.kraken) w.binance

  -- The bounds of the fields, and `weights_must_sum_to_one`, which pydantic only runs on a `binance`
  -- that is given, not on the default.
  unfoldable weights_is_valid : Bool → GlobalMidWeights R → Bool
  weights_is_valid given w =
      unit_interval w.kucoin
      && unit_interval w.gate
      && unit_interval w.mexc
      && unit_interval w.kraken
      && unit_interval w.binance
      && (not given || le (abs (f.sub (total_of w) unity)) (decimal 1 3))

  unfoldable exchange_is_valid : ExchangeBotConfig R → Bool
  unfolding spread_is_valid depth_is_valid safety_is_valid
  exchange_is_valid c =
      spread_is_valid c.spread && depth_is_valid c.depth && safety_is_valid c.safety

  -- `given` says whether the weight of binance stands in the input.
  unfoldable config_is_valid : Bool → BotConfig R → Bool
  unfolding weights_is_valid volatility_is_valid exchange_is_valid
  config_is_valid given c =
      weights_is_valid given c.global_mid_weights
      && volatility_is_valid c.volatility
      && ltb 0 (length c.exchanges)
      && every exchange_is_valid c.exchanges
      && every (λ (b : ExchangeInitialBalance R). le nought b.usd && le nought b.token)
          (values c.initial_balances)
