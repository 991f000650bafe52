-- ===== src/Samples/Bots.antt =====
-- A bot, and an exchange whose database can refuse, for the tests of the bot and the orchestrator.
use mmp_meridian.Prelude.{Bool, true, false, some, none, [], ◌∷◌}
use mmp_meridian.Prelude.Int.{ℤ}
use mmp_meridian.Float.Fixed.{fixed}
use mmp_meridian.Samples.{micro, safety, spread, depth, volatility}
use mmp_meridian.Samples.Outside.{outside, dry}
use mmp_meridian.Samples.Points.{points, sum}
use mmp_meridian.Exchange.{Balance, Fill, buy}
use mmp_meridian.Config.{ExchangeBotConfig}
use mmp_meridian.Safety.QSwitch.{initial}
use mmp_meridian.Quant.Aggressiveness.{choppy, high_vol_crash}
use mmp_meridian.Regime.Master.{GlobalState}
use mmp_meridian.Bot.State.{other_error, Answers, Parts, Bot}

abbrev pub config : ExchangeBotConfig ℤ
config = record {
  exchange = "kucoin";
  symbol = "ALKIMI/USDT";
  quote_currency = "USDT";
  enabled = true;
  spread = spread;
  depth = record depth { levels = 2 };
  safety = safety;
  use_cpp_connector = none;
}

abbrev pub parts : Parts ℤ
parts = record {
  config = config;
  safety = safety;
  spread_engine = record {
    cfg = spread;
    maker_fee_bps = micro 10_000_000;
    min_profitable_spread_bps = micro 22_000_000;
  };
  agg_cfg = volatility;
  orders = dry;
  linspace = points;
  total = sum;
}

abbrev pub fill : Fill ℤ
fill = record {
  id = "f";
  order_id = "o";
  exchange = "kucoin";
  symbol = "ALKIMI/USDT";
  side = buy;
  filled_price = micro 25_000;
  filled_amount = micro 100_000_000;
  fee = micro 0;
  fee_currency = "USDT";
  timestamp = micro 9_000_000;
  pnl_usd = micro 0;
}

-- Everything answers, the connector is lost, and the database takes nothing but orders.
abbrev pub answers : Bool → Answers ℤ
answers accepts = record {
  now = λ n. micro 20_000_000;
  today = λ n. 1;
  connect = λ n. true;
  disconnect = λ n. true;
  reconnect = λ n. false;
  is_connected = λ n. false;
  fetch_balance = λ n. none;
  fetch_fills = λ n since. some (fill ∷ []);
  db = λ n. accepts;
  fill_rate = λ n. some (micro 1_000_000);
  recent_pnl = λ n. some (micro 0);
  emit = λ n. true;
  exception = λ n. other_error;
  orders = outside;
}

abbrev pub rich : Balance ℤ
rich = record { usd = micro 500_000_000; token = micro 20000_000_000; quote_currency = "USDT" }

abbrev pub bot : Bot ℤ
bot = record {
  q_switch = initial;
  heartbeat = record { last_beat = micro 0; missed = 0; failed = false };
  circuit_breaker = record {
    start_equity = none;
    peak_equity = none;
    day_start = 1;
    tripped = false;
    trip_reason = none;
  };
  inventory = record {
    initial_usd = some (micro 500_000_000);
    initial_token = some (micro 20000_000_000);
    current_usd = micro 500_000_000;
    current_token = micro 20000_000_000;
    drift_threshold = micro 100_000;
    max_position_tokens = micro 0;
    max_position_usd = micro 0;
    min_position_tokens = micro 0;
  };
  order_manager = record {
    open_orders = [];
    order_created_at = [];
    last_grid = none;
    count = 0;
    calls = [];
  };
  paper_trader = none;
  regime_queue = none;
  current_regime_state = none;
  running = true;
  in_loop = true;
  balance = some rich;
  balance_cached_at = micro 15_000_000;
  last_snapshot_at = micro 0;
  last_rl_at = micro 0;
  last_fill_poll_at = micro 0;
  last_fill_ts = some (micro 3_000_000);
  last_global_state = none;
  count = 0;
  calls = [];
}

abbrev pub state : GlobalState ℤ
state = record {
  global_mid = micro 25_000;
  volatility = micro 30_000;
  aggressiveness = micro 500_000;
  zz_vol = micro 1_000;
  zz_regime = choppy;
  hmm_regime = high_vol_crash;
  hmm_regime_confidence = micro 800_000;
  timestamp = micro 5_000_000;
  contributing_exchanges = "kucoin" ∷ [];
  regime_state = none;
}
