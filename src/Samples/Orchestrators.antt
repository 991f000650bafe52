-- ===== src/Samples/Orchestrators.antt =====
-- An orchestrator, its models and its configuration, for the tests of the orchestrator and of the API.
use mmp_meridian.Prelude.{ℕ, true, some, none, [], ◌∷◌}
use mmp_meridian.Prelude.Int.{ℤ}
use mmp_meridian.Float.Fixed.{fixed}
use mmp_meridian.Samples.{micro, volatility}
use mmp_meridian.Samples.Bots
use mmp_meridian.Samples.Market.{sure, numerics, engine}
use mmp_meridian.Quant.Detector.{fresh}
use mmp_meridian.Regime.Observation.{Model, Regime, ranging, trending}
use mmp_meridian.Regime.Master.{fresh_master}
use mmp_meridian.Config.{GlobalMidWeights, BotConfig}
use mmp_meridian.Orchestrator.{Orchestrator, Models}
use mmp_meridian.Orchestrator.Control.{Cell}

abbrev pub shares : GlobalMidWeights ℤ
shares = record {
  kucoin = micro 500_000;
  gate = micro 500_000;
  mexc = micro 0;
  kraken = micro 0;
  binance = micro 0;
}

abbrev pub models : Models ℤ ℕ
models = record { volatility = volatility; numerics = numerics; library = sure }

-- A belief that is a regime.
abbrev pub master : Model ℤ Regime
master = record {
  pi = ranging;
  weigh = λ b n. trending;
  sum = λ b. micro 1_000_000;
  over = λ b d. b;
  argmax = λ b. b;
  greatest = λ b. micro 900_000;
  tiny = micro 0;
}

abbrev pub orchestrator : Orchestrator ℤ ℕ Regime
orchestrator = record {
  weights = shares;
  vol_engine = engine;
  hmm_detector = some (fresh sure);
  regime_master = fresh_master master;
  last_candle_fetch_at = micro 0;
  state = none;
  bot_queues =
      ("kucoin", record { maxsize = 5; items = [] })
      ∷ ("gate", record { maxsize = 1; items = Bots.state ∷ [] })
      ∷ [];
}

abbrev pub cell : Cell ℤ
cell = record { out = Bots.answers true; parts = Bots.parts; bot = Bots.bot }

abbrev pub config : BotConfig ℤ
config = record {
  dry_run = true;
  global_mid_weights = shares;
  volatility = volatility;
  exchanges = Bots.config ∷ [];
  initial_balances = [];
}
