-- ===== src/Bot/State.antt =====
-- The state of `ExchangeBot`, what it is made of, and what it calls outside: the connector, the
-- database, the dashboard and the clock answer as functions of the number of calls made so far.
use mmp_meridian.Prelude.{ℕ, ◌+◌, Bool, true, Option, List, ◌∷◌}
use mmp_meridian.Prelude.Run.{Run, ok, answer, accepted, zoom}
use mmp_meridian.Exchange.{Balance, Fill}
use mmp_meridian.Config.{ExchangeBotConfig, SafetyConfig, VolatilityConfig}
use mmp_meridian.Safety.QSwitch.{QSwitch}
use mmp_meridian.Safety.CircuitBreaker.{CircuitBreaker}
use mmp_meridian.Safety.Heartbeat.{Heartbeat}
use mmp_meridian.Inventory.{Tracker}
use mmp_meridian.Orders.Monad.{Outside, Manager, M, OrderGrid}
use mmp_meridian.Orders.Manager.{Settings}
use mmp_meridian.Fills.Paper.{PaperTrader}
use mmp_meridian.Regime.Master.{Queue, RegimeState, GlobalState}
use mmp_meridian.Spread.Engine.{SpreadEngine}

-- What the middle of a tick makes: the spreads, the amounts in USD and the grid.
pub record Quote (R : Type 0) : Type 0 where
  pub skew : R
  pub buy_spreads : List R
  pub sell_spreads : List R
  pub buy_usd_amounts : List R
  pub sell_usd_amounts : List R
  pub grid : OrderGrid R

-- The calls of the bot itself; the arguments that the state of the bot determines are left out.
pub data Call (R : Type 0) : Type 0 where
  acquire connect disconnect reconnect fetch_balance emit_emergency_stop : Call R
  fetch_fills : R → Call R
  insert_fill : Fill R → Call R
  insert_inventory_snapshot : Balance R → GlobalState R → Quote R → Call R
  get_fill_rate get_recent_pnl : Call R
  insert_rl_features : GlobalState R → Quote R → R → R → Call R
  emit_tick : GlobalState R → Quote R → ℕ → ℕ → Call R

-- The classes of exceptions that the loop tells apart.
pub data Exception : Type 0 where
  timeout_error cancelled_error other_error : Exception

-- The answers: `none` and `false` are exceptions, except for `is_connected`.
pub record Answers (R : Type 0) : Type 0 where
  pub now : ℕ → R
  pub today : ℕ → ℕ
  pub connect : ℕ → Bool
  pub disconnect : ℕ → Bool
  pub reconnect : ℕ → Bool
  pub is_connected : ℕ → Bool
  pub fetch_balance : ℕ → Option (Balance R)
  pub fetch_fills : ℕ → R → Option (List (Fill R))
  pub db : ℕ → Bool
  pub fill_rate : ℕ → Option R
  pub recent_pnl : ℕ → Option R
  pub emit : ℕ → Bool
  -- The class of an exception that comes out of a tick.
  pub exception : ℕ → Exception
  -- What the order manager calls.
  pub orders : Outside R

-- What a bot is made of and never changes itself. `linspace` and `total` are numpy's, as in the engines.
pub record Parts (R : Type 0) : Type 0 where
  pub config : ExchangeBotConfig R
  -- The section of the configuration that the safety parts were made with.
  pub safety : SafetyConfig R
  pub spread_engine : SpreadEngine R
  pub agg_cfg : VolatilityConfig R
  pub orders : Settings R
  pub linspace : ℕ → List R
  pub total : List R → R

pub record Bot (R : Type 0) : Type 0 where
  pub q_switch : QSwitch R
  pub heartbeat : Heartbeat R
  pub circuit_breaker : CircuitBreaker R
  pub inventory : Tracker R
  pub order_manager : Manager R
  pub paper_trader : Option (PaperTrader R)
  pub regime_queue : Option (Queue (RegimeState R))
  pub current_regime_state : Option (RegimeState R)
  pub running : Bool
  -- The loop is in its body, waiting for a state: `running` was true at its last test.
  pub in_loop : Bool
  pub balance : Option (Balance R)
  pub balance_cached_at : R
  pub last_snapshot_at : R
  pub last_rl_at : R
  pub last_fill_poll_at : R
  pub last_fill_ts : Option R
  pub last_global_state : Option (GlobalState R)
  pub count : ℕ
  pub calls : List (Call R)

abbrev pub B : Type 0 → Type 0 → Type 0
B R A = Run (Bot R) A

module _ {R : Type 0} {A : Type 0} where
  abbrev pub ask : Call R → (ℕ → Option A) → B R A
  ask c reply b = (answer (reply b.count), record b { count = b.count + 1; calls = c ∷ b.calls })

  abbrev pub read : (ℕ → A) → B R A
  read reply b = (ok (reply b.count), record b { count = b.count + 1 })

  -- A method of the order manager.
  abbrev pub managed : M R A → B R A
  managed = zoom (λ b. b.order_manager) (λ m b. record b { order_manager = m })

module _ {R : Type 0} where
  abbrev pub request : Call R → (ℕ → Bool) → B R (Unit {0})
  request c reply = ask c (λ n. accepted (reply n))

  -- The rate limiter, which the order manager uses too, only delays.
  abbrev pub acquire_token : B R (Unit {0})
  acquire_token = request acquire (λ n. true)
