-- ===== src/Lib.antt =====
-- Meridian, a market-making bot: a model of the program and the theorems about it.
--
-- An orchestrator runs one bot per exchange. On each tick a bot asks its safety components whether it
-- may go on, reads the balances into the inventory tracker, turns the volatility and the regime into an
-- aggressiveness for each side, the aggressiveness into levels, prices and amounts, and hands the
-- resulting grid to the order manager, which cancels and places only what differs. In paper trading a
-- simulator fills the open orders against the order books that arrive. The regime master broadcasts one
-- regime to all bots.
--
-- Which file models what:
--   Prelude          tests, lists, dicts, deques and integers that the other files share; Run is what a
--                    method of a stateful object runs in; Sorting is Python's `sorted`
--   Float            the floating-point numbers as an interface: `Float` has the operations, and the
--                    law records say what the theorems assume of them; Float/Fixed is a concrete
--                    arithmetic that meets the laws, on which the examples run
--   MathUtils        utils/math_utils.py
--   Config           config/schema.py, with the constraints and validators as tests
--   Exchange         exchange/base.py, the data classes
--   Factory          exchange/factory.py, the choice of a connector
--   Safety           safety/: QSwitch, CircuitBreaker, Heartbeat and RateLimiter, each with the
--                    methods of the class of that name as functions on its state
--   Inventory        core/inventory_tracker.py, with the skew in Inventory/Skew and the limits in
--                    Inventory/Limits
--   Orders           core/order_manager.py: Monad is what a method runs in, Grid compares open orders
--                    with the grid, Manager has the methods; Cache, Steps, Near, Placing and Coverage lead to
--                    what a dry run achieves, Idle is about an unchanged grid, Sync and Live are about
--                    live exchanges
--   Quant            quant/: Aggressiveness is aggressiveness.py (Overlay is about the detector's
--                    regime), Detector is hmm_regime.py (Readiness is about it), Volatility is
--                    volatility.py (Estimates is about it)
--   Spread           quant/spread_engine.py; Bounds is about the levels, Prices about the prices
--   Depth            quant/depth_engine.py and `geometric_decay`; Floor is about the amounts
--   Fills            core/fill_simulator.py, the order books of exchange/ws_connector.py and
--                    core/paper_trader.py; Stats is about what is counted
--   Regime           quant/regime_detector.py (Observation, Parameters, Training) and
--                    core/regime_master.py (Master); Encoding is about the observations,
--                    Reconcile about what is broadcast
--   Rebalancer       core/rebalancer.py; Shares is about the transfers suggested
--   Bot              core/exchange_bot.py: State has the fields and the calls outside, Regimes and
--                    Quotes lead from a state to the grid, Tick has the tick, Loop the turns of the
--                    loop and the stops. Frame, Admission, Halted, Ended, Quoting, Uncrossed, Recovery
--                    and Ingestion are about it. A bot is built of the states of Safety, Inventory,
--                    Orders and Fills, and its methods call theirs
--   Orchestrator     core/orchestrator.py: the tick of the price loop, with the weights of
--                    config/schema.py; Control, the operations on all bots; Start, what `start` builds,
--                    with the credentials of config/settings.py. Mid is about the mid-price,
--                    Distribution and States about what reaches the bots, Stopping and Reload about
--                    Control, Seats about Start
--   Comparison       core/ab_comparator.py: Metrics is what one arm counts, Strategy the tick on both
--                    arms; Counts is about them
--   Connectors       exchange/ccxt_connector.py (Ccxt, in the monad of Monad), exchange/cpp_connector.py
--                    (Cpp) and the loops of exchange/ccxt_ws_connector.py (Streams); Retries,
--                    Cancelling and Lifecycle are about calls, Books and Backoff about the loops
--   Api              api/websocket.py with the task of each client (Feed), and the routes of
--                    api/routes.py that change something, behind the keys of api/app.py (Routes), over
--                    the models of Bot and Orchestrator; Heard is about the feed, Access about the
--                    keys and the status of a response, Pausing about the control of the bots
--   Backtest         scripts/backtest.py: Book is the synthetic book and the orders, Replay the loop
--                    over the candles, with the models of Quant, Spread, Depth, Inventory and Fills;
--                    Ladder is about the book, Passive and Idle about the fills
--   Samples          data that the Tests modules share
--
-- How the code is read. A class is a record of its fields and a method a function from state to state;
-- the name of a method keeps its words, without a leading underscore. The methods of the order manager
-- and of the bot run in a monad of state and exceptions, in which a call that is refused raises and
-- what was written before stays written. The exchange, the database, the clock, uuid, the functions of
-- math and numpy, hmmlearn, ccxt, the compiled connectors, pydantic and the vectors of the discrete
-- detector are parameters: the answers are functions of the number of calls made, so that every
-- sequence of answers is covered. An exception of ccxt is one of the classes that the connector tells
-- apart; its retries count down the attempts that are left, at most four in all. An exception
-- that comes out of a tick has the class that the outside gives it, a timeout, a cancellation or
-- another; inside the tick a `try` catches every exception, so that a cancellation at an await
-- under one is left out. Tasks that run side by side are sequences of calls, signals or events; a
-- handler of the bot runs to its end before the next begins, so that what happens between two
-- tasks at an `await` is left out. Loops are structural recursion on the list they go through, or
-- on the number of iterations that the code allows, so no fuel is needed.
--
-- Not modelled: the tasks of the orchestrator, the status reports of the orchestrator and of the bot,
-- and the latency percentiles and the printed report of the comparator; the default matrices and the
-- pickling of quant/regime_detector.py; the routes that only read, the download of candles and the
-- summary of the backtest, the database, the reading of the settings, the agents, the other scripts
-- and the logging, which are I/O or call the parts above.
pub mod Api
pub mod Backtest
pub mod Bot
pub mod Prelude
pub mod Samples
pub mod Float
pub mod MathUtils
pub mod Comparison
pub mod Connectors
pub mod Config
pub mod Exchange
pub mod Safety
pub mod Inventory
pub mod Orders
pub mod Quant
pub mod Factory
pub mod Fills
pub mod Regime
pub mod Spread
pub mod Depth
pub mod Rebalancer
pub mod Orchestrator
