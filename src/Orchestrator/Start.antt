-- ===== src/Orchestrator/Start.antt =====
-- What `start` of the orchestrator builds before it creates its tasks, with `credentials_for` of
-- config/settings.py. The dicts `_connectors`, `_paper_traders` and `_bots` have the same keys and are
-- one dict of seats; a seat is what a bot is made with.
use mmp_meridian.Prelude.{
  ℕ, ◌+◌, Bool, false, not, ◌&&◌, Option, none, some, String, List, [], ◌∷◌, str_eq, and_then,
  if◌then◌else◌,
}
use mmp_meridian.Prelude.Dict.{Dict, lookup, insert}
use mmp_meridian.Float.{Float}
use mmp_meridian.Config.{BotConfig, ExchangeBotConfig, ExchangeInitialBalance, enabled_exchanges}
use mmp_meridian.Factory.{Connector, Build, create_connector, create_ws_connector}
use mmp_meridian.Regime.Observation.{Model}
use mmp_meridian.Regime.Master.{Queue, GlobalState, add_subscriber}
use mmp_meridian.Orchestrator.{Orchestrator}

pub record Secrets : Type 0 where
  pub kucoin_api_key : String
  pub kucoin_api_secret : String
  pub kucoin_passphrase : String
  pub gate_api_key : String
  pub gate_api_secret : String
  pub mexc_api_key : String
  pub mexc_api_secret : String
  pub kraken_api_key : String
  pub kraken_api_secret : String

pub record Credentials : Type 0 where
  pub api_key : String
  pub api_secret : String
  pub passphrase : Option String

-- `none` is the ValueError.
unfoldable pub credentials_for : Secrets → String → Option Credentials
credentials_for s exchange =
    if str_eq exchange "kucoin"
    then some (record {
      api_key = s.kucoin_api_key;
      api_secret = s.kucoin_api_secret;
      passphrase = some s.kucoin_passphrase;
    })
    else if str_eq exchange "gate"
    then some
        (record { api_key = s.gate_api_key; api_secret = s.gate_api_secret; passphrase = none })
    else if str_eq exchange "mexc"
    then some
        (record { api_key = s.mexc_api_key; api_secret = s.mexc_api_secret; passphrase = none })
    else if str_eq exchange "kraken"
    then some
        (record { api_key = s.kraken_api_key; api_secret = s.kraken_api_secret; passphrase = none })
    else none

-- What a bot is made with; its queue of states stands in the orchestrator, its queue of regimes in the
-- regime master, under the number of the seat.
pub record Seat (R : Type 0) : Type 0 where
  pub config : ExchangeBotConfig R
  pub credentials : Credentials
  pub connector : Connector
  pub regime_queue : ℕ
  pub live_mode : Bool
  -- The WebSocket connector of its paper trader.
  pub paper_trader : Option Connector
  pub initial_balance : Option (ExchangeInitialBalance R)

pub record Wiring (R Mo V : Type 0) : Type 0 where
  pub orchestrator : Orchestrator R Mo V
  pub seats : Dict (Seat R)
  -- How many queues of regimes have been made.
  pub made : ℕ

module _ {R : Type 0} (live_mode : Bool) (config : BotConfig R) where
  -- The seat of an exchange; an exception of the WebSocket connector leaves it without a paper trader.
  abbrev pub seat_of : ExchangeBotConfig R → Credentials → Connector → ℕ → Seat R
  seat_of ex creds connector made = record {
    config = ex;
    credentials = creds;
    connector = connector;
    regime_queue = made;
    live_mode = live_mode && not config.dry_run;
    paper_trader = if config.dry_run then create_ws_connector ex.exchange else none;
    initial_balance = lookup ex.exchange config.initial_balances;
  }

module _ {R : Type 0} ⦃f : Float R⦄ {Mo V : Type 0} (model : Model R V) (secrets : Secrets)
    (build : Build) (live_mode : Bool) (config : BotConfig R) where
  abbrev pub seated : ExchangeBotConfig R → Credentials → Connector → Wiring R Mo V → Wiring R Mo V
  seated ex creds connector w =
      let q : Queue (GlobalState R) = record { maxsize = 5; items = [] } in
      let orch = w.orchestrator in
      record {
        orchestrator = record orch {
          bot_queues = insert ex.exchange q orch.bot_queues;
          regime_master =
              add_subscriber model w.made (record { maxsize = 5; items = [] }) orch.regime_master;
        };
        seats = insert ex.exchange (seat_of live_mode config ex creds connector w.made) w.seats;
        made = w.made + 1;
      }

  -- `none` is an exception.
  unfoldable pub seat_one : ExchangeBotConfig R → Wiring R Mo V → Option (Wiring R Mo V)
  unfolding credentials_for create_connector create_ws_connector add_subscriber
  seat_one ex w = and_then (credentials_for secrets ex.exchange) λ creds.
      and_then (create_connector build ex.exchange false ex.use_cpp_connector)
        λ connector. some (seated ex creds connector w)

  unfoldable pub seat_all : List (ExchangeBotConfig R) → Wiring R Mo V → Option (Wiring R Mo V)
  unfolding seat_one
  seat_all [] w = some w
  seat_all (ex ∷ exchanges) w = and_then (seat_one ex w) (seat_all exchanges)

  unfoldable pub start : Wiring R Mo V → Option (Wiring R Mo V)
  unfolding enabled_exchanges seat_all
  start w = seat_all (enabled_exchanges config) w
