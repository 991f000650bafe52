-- ===== src/Orchestrator/Tests.antt =====
-- The tick of the price loop on concrete inputs.
use mmp_meridian.Prelude.{ℕ, ◌≡◌, refl, true, inl, none, some, String, [], ◌∷◌, ◌++◌, All, arith}
use mmp_meridian.Prelude.Run.{ok, raised}
use mmp_meridian.Prelude.Int.{ℤ}
use mmp_meridian.Prelude.Dict.{Dict, contains}
use mmp_meridian.Float.{◌≼◌}
use mmp_meridian.Float.Fixed.{fixed, fixed-IsOrdered}
use mmp_meridian.Samples.{micro, hmm}
use mmp_meridian.Samples.Outside.{outside}
use mmp_meridian.Samples.Bots
use mmp_meridian.Samples.Orchestrators.{models, master, orchestrator, cell, config}
use mmp_meridian.Samples.Market.{sure, numerics-IsStatistics}
use mmp_meridian.Quant.Readiness.{HasProbabilities}
use mmp_meridian.Config.{BotConfig, enabled_exchanges}
use mmp_meridian.Factory.{Build}
use mmp_meridian.Regime.Observation.{Regime}
use mmp_meridian.Orchestrator.Start.{Secrets, Wiring, start}
use mmp_meridian.Orchestrator.Seats.{IsWired, is_named, start-IsWired, start_refused}
use mmp_meridian.Orchestrator.{Answers, tick_prices, weight_of}
use mmp_meridian.Orchestrator.States.{IsTold, tick_prices-IsTold}
use mmp_meridian.Orchestrator.Control.{Cell, halt_bot, emergency_stop_all}
use mmp_meridian.Orchestrator.Stopping.{IsStopped, emergency_stop_all_lem}

abbrev weights : Dict ℤ
weights = ("kucoin", micro 500_000) ∷ ("gate", micro 500_000) ∷ []

weights_nonneg : (name : String) → micro 0 ≼ weight_of weights name
weights_nonneg name = ground arith

abbrev answers : Answers ℤ
answers = record {
  tickers = ("kucoin", some (micro 25_000)) ∷ ("gate", none) ∷ [];
  candles = none;
  ts_now = micro 100_000_000;
  timestamp = micro 100_000_001;
}

probable : HasProbabilities sure hmm
probable = λ model os n c e. ground arith

tick_prices-IsTold_example :
    IsTold models master fixed-IsOrdered probable numerics-IsStatistics orchestrator
      (tick_prices models master answers orchestrator)
tick_prices-IsTold_example =
    tick_prices-IsTold models master fixed-IsOrdered probable numerics-IsStatistics answers
      orchestrator (refl, refl)

abbrev one : Dict (Cell ℤ)
one = ("kucoin", cell) ∷ []

emergency_stop_all_lem_example :
    (let (r, done) = emergency_stop_all "API request" one in
      (r ≡ ok tt) × All (λ (name, c). IsStopped c) done)
    × (let (r, b) = halt_bot "API request" cell.out cell.parts cell.bot in
        r ≡ raised
        → emergency_stop_all "API request" (one ++ ("gate", cell) ∷ []) ≡ (
          raised,
          (emergency_stop_all "API request" one).1 ++ ("gate", record cell { bot = b }) ∷ [],
        ))
unfolding outside
emergency_stop_all_lem_example =
    emergency_stop_all_lem "API request" "gate" one [] cell (((λ n. refl), inl refl), tt)

abbrev secrets : Secrets
secrets = record {
  kucoin_api_key = "k";
  kucoin_api_secret = "s";
  kucoin_passphrase = "p";
  gate_api_key = "";
  gate_api_secret = "";
  mexc_api_key = "";
  mexc_api_secret = "";
  kraken_api_key = "";
  kraken_api_secret = "";
}

abbrev build : Build
build = record { imported = true; library = true; use_cpp_connector = "true" }

abbrev unwired : Wiring ℤ ℕ Regime
unwired = record { orchestrator = record orchestrator { bot_queues = [] }; seats = []; made = 0 }

abbrev both : BotConfig ℤ
both = record config { exchanges = Bots.config ∷ record Bots.config { exchange = "binance" } ∷ [] }

start-IsWired_example :
    (w : Wiring ℤ ℕ Regime) × (start master secrets build true config unwired ≡ some w)
    × IsWired config w
    × ((n : String) → contains n w.seats ≡ is_named n (enabled_exchanges config))
unfolding enabled_exchanges
start-IsWired_example = start-IsWired master secrets build true config unwired refl refl (refl, tt)

start_refused_example : start master secrets build true both unwired ≡ none
unfolding enabled_exchanges
start_refused_example = start_refused master secrets build true both unwired refl
