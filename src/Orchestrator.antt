-- ===== src/Orchestrator.antt =====
-- core/orchestrator.py: the tick of the price loop, from the tickers of the exchanges to the bots' queues,
-- with the weights of config/schema.py.
pub mod Mid
pub mod Distribution
pub mod States
pub mod Control
pub mod Stopping
pub mod Reload
pub mod Start
pub mod Seats
mod Tests
use mmp_meridian.Prelude.{
  Bool, true, ◌&&◌, Option, none, some, String, List, [], ◌∷◌, map, if◌then◌else◌,
}
use mmp_meridian.Prelude.Dict.{Dict, lookup, keys}
use mmp_meridian.Float.{Float, nought, unity, abs, sum_from}
use mathlib.Core.Option
use mmp_meridian.MathUtils.{normalize_weights}
use mmp_meridian.Exchange.{Candle}
use mmp_meridian.Config.{VolatilityConfig, GlobalMidWeights}
use mmp_meridian.Quant.Aggressiveness.{HmmRegime, normal, compute}
use mmp_meridian.Quant.Detector.{Observation, Library, HmmRegimeDetector, update}
use mmp_meridian.Quant.Volatility.{
  Numerics, VolatilityEngine, update_price, update_candles, rolling_vol, zhang_zhang_vol,
  hmm_features,
}
use mmp_meridian.Regime.Observation.{Model}
use mmp_meridian.Regime.Master.{Queue, put_nowait, GlobalState, RegimeMaster, push_state}

-- What a tick of the price loop came to: `raised` is the exception of `normalize_weights`.
pub data Outcome : Type 0 where
  no_valid_tickers raised invalid_global_mid distributed : Outcome

-- The parts of the orchestrator that the tick reads or writes.
pub record Orchestrator (R Mo V : Type 0) : Type 0 where
  pub weights : GlobalMidWeights R
  pub vol_engine : VolatilityEngine R
  pub hmm_detector : Option (HmmRegimeDetector R Mo)
  pub regime_master : RegimeMaster R V
  pub last_candle_fetch_at : R
  pub state : Option (GlobalState R)
  pub bot_queues : Dict (Queue (GlobalState R))

-- The configured model, with the libraries that it stands on.
pub record Models (R Mo : Type 0) : Type 0 where
  pub volatility : VolatilityConfig R
  pub numerics : Numerics R
  pub library : Library R Mo

-- What the outside answers to one tick: the tickers, the candles (`none` is an exception) and the two
-- readings of the clock.
pub record Answers (R : Type 0) : Type 0 where
  pub tickers : List (String × Option R)
  pub candles : Option (List (Candle R))
  pub ts_now : R
  pub timestamp : R

-- The prices of the exchanges that answered with one.
unfoldable pub valid_prices : {R : Type 0} → List (String × Option R) → Dict R
valid_prices [] = []
valid_prices ((name, none) ∷ results) = valid_prices results
valid_prices ((name, some price) ∷ results) = (name, price) ∷ valid_prices results

unfoldable pub push_all : {S : Type 0} → S → Dict (Queue S) → Dict (Queue S)
unfolding put_nowait
push_all s [] = []
push_all s ((name, q) ∷ queues) = (name, put_nowait s q) ∷ push_all s queues

module _ {R : Type 0} ⦃f : Float R⦄ where
  open f use {add, sub, mul, div, lt, le, eq, decimal}

  unfoldable pub as_dict : GlobalMidWeights R → Dict R
  as_dict w =
      ("kucoin", w.kucoin)
      ∷ ("gate", w.gate)
      ∷ ("mexc", w.mexc)
      ∷ ("kraken", w.kraken)
      ∷ ("binance", w.binance)
      ∷ []

  abbrev pub or_nought : Option R → R
  or_nought none = nought
  or_nought (some a) = a

  -- `weights.get(name, 0.0)`
  abbrev pub weight_of : Dict R → String → R
  weight_of weights name = or_nought (lookup name weights)

  -- The weights of the exchanges that answered.
  abbrev pub active : Dict R → Dict R → Dict R
  active weights [] = []
  active weights ((name, price) ∷ valid) = (name, weight_of weights name) ∷ active weights valid

  -- The prices of `valid` by the normalised weights, each of which stands under its name.
  abbrev pub sum_by : Dict R → Dict R → R
  sum_by normalised valid =
      sum_from nought (map (λ (name, price). mul (weight_of normalised name) price) valid)

  -- The global mid-price; `none` is the exception of `normalize_weights`.
  unfoldable pub global_mid : Dict R → Dict R → Option R
  unfolding normalize_weights
  global_mid weights valid =
      Option.map (λ n. sum_by n valid) (normalize_weights (active weights valid))

module _ {R Mo V : Type 0} ⦃f : Float R⦄ (models : Models R Mo) (master : Model R V) where
  open f use {sub, lt, le, decimal}

  -- The price and, every 60 s, the candles of the first connector. A price is only valid with a
  -- connector, so that there is one.
  unfoldable pub feed_engine : R → Answers R → Orchestrator R Mo V → Orchestrator R Mo V
  unfolding update_price update_candles
  feed_engine mid a t =
      let priced = update_price models.volatility mid a.ts_now t.vol_engine in
      if le (decimal 60 0) (sub a.ts_now t.last_candle_fetch_at)
      then elim a.candles [
        | none ↦ record t { vol_engine = priced }
        | some candles ↦ record t {
          vol_engine = update_candles models.volatility candles priced;
          last_candle_fetch_at = a.ts_now;
        }
      ]
      else record t { vol_engine = priced }

  -- The regime of the detector and its confidence: without features it is NORMAL, with 0.
  abbrev pub detect :
      HmmRegimeDetector R Mo → Option (Observation R) → (HmmRegime × R) × HmmRegimeDetector R Mo
  detect d none = ((normal, nought), d)
  detect d (some obs) =
      let d' = update models.library models.volatility.hmm obs d in
      ((d'.current_regime, d'.confidence), d')

  unfoldable pub run_detector : Orchestrator R Mo V → (HmmRegime × R) × Orchestrator R Mo V
  unfolding update hmm_features
  run_detector t =
      let (found, e) = hmm_features models.numerics models.volatility t.vol_engine in
      elim t.hmm_detector [
        | none ↦ ((normal, nought), t)
        | some d ↦
            let (answer, d') = detect d found in
            (answer, record t { vol_engine = e; hmm_detector = some d' })
      ]

  -- The state that is broadcast.
  unfoldable pub global_state :
      R → List String → Answers R → Orchestrator R Mo V → GlobalState R × Orchestrator R Mo V
  unfolding rolling_vol zhang_zhang_vol compute feed_engine run_detector
  global_state mid names a t =
      let fed = feed_engine mid a t in
      let vol = rolling_vol models.numerics fed.vol_engine in
      let ((zz_vol, zz_regime), e) =
        zhang_zhang_vol models.numerics models.volatility fed.vol_engine in
      let ((hmm_regime, confidence), t') = run_detector (record fed { vol_engine = e }) in
      (
        record {
          global_mid = mid;
          volatility = vol;
          aggressiveness = compute models.volatility vol;
          zz_vol = zz_vol;
          zz_regime = zz_regime;
          hmm_regime = hmm_regime;
          hmm_regime_confidence = confidence;
          timestamp = a.timestamp;
          contributing_exchanges = names;
          regime_state = some t'.regime_master.current;
        },
        t',
      )

  -- The state is kept, pushed to the regime master and to the bots.
  abbrev pub publish : GlobalState R × Orchestrator R Mo V → Orchestrator R Mo V
  publish (s, t) = record t {
    state = some s;
    regime_master = push_state master s t.regime_master;
    bot_queues = push_all s t.bot_queues;
  }

  unfoldable pub distribute :
      Dict R → Option R → Answers R → Orchestrator R Mo V → Outcome × Orchestrator R Mo V
  unfolding push_all push_state global_state
  distribute valid none a t = (raised, t)
  distribute valid (some mid) a t =
      if le mid nought
      then (invalid_global_mid, t)
      else (distributed, publish (global_state mid (keys valid) a t))

  unfoldable pub tick_prices : Answers R → Orchestrator R Mo V → Outcome × Orchestrator R Mo V
  unfolding valid_prices global_mid as_dict distribute
  tick_prices a t =
      let valid = valid_prices a.tickers in
      let answered = distribute valid (global_mid (as_dict t.weights) valid) a t in
      elim valid [ [] ↦ (no_valid_tickers, t) | _ ∷ _ ↦ answered ]
