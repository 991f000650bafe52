-- ===== src/Orchestrator/Control.antt =====
-- What the orchestrator does to all its bots: the graceful and the emergency stop, and the reload of
-- the configuration. Creating and cancelling the tasks is left out.
use mmp_meridian.Prelude.{none, some, String, List, [], ◌∷◌, if◌then◌else◌}
use mmp_meridian.Prelude.Dict.{Dict, lookup, insert}
use mmp_meridian.Prelude.Run.{Result, ok, raised, ◌>>◌}
use mmp_meridian.Float.{Float, nought}
use mmp_meridian.Config.{BotConfig, ExchangeBotConfig, enabled_exchanges}
use mmp_meridian.Quant.Detector.{fresh}
use mmp_meridian.Quant.Volatility.{fresh_engine}
use mmp_meridian.Spread.Engine.{create}
use mmp_meridian.Orders.Manager.{cancel_all}
use mmp_meridian.Bot.State.{Answers, Parts, Bot, B, managed}
use mmp_meridian.Bot.Loop.{pull_switch, stop}
use mmp_meridian.Orchestrator.{Orchestrator, Models}

-- A bot with what it is made of and what answers it.
pub record Cell (R : Type 0) : Type 0 where
  pub out : Answers R
  pub parts : Parts R
  pub bot : Bot R

module _ {R : Type 0} ⦃f : Float R⦄ where
  -- `for bot in self._bots.values(): ...`, which an exception ends.
  unfoldable pub each_bot :
      (Answers R → Parts R → B R (Unit {0})) → Dict (Cell R) → Result (Unit {0}) × Dict (Cell R)
  each_bot act [] = (ok tt, [])
  each_bot act ((name, c) ∷ cells) =
      let (r, b) = act c.out c.parts c.bot in
      let (r', rest) = each_bot act cells in
      elim r [
        | ok _ ↦ (r', (name, record c { bot = b }) ∷ rest)
        | raised ↦ (raised, (name, record c { bot = b }) ∷ cells)
      ]

  unfoldable pub halt_bot : String → Answers R → Parts R → B R (Unit {0})
  unfolding pull_switch cancel_all
  halt_bot reason out p = do pull_switch out p reason; managed (cancel_all out.orders p.orders)

  -- Up to the event for the dashboard.
  unfoldable pub emergency_stop_all : String → Dict (Cell R) → Result (Unit {0}) × Dict (Cell R)
  unfolding each_bot halt_bot
  emergency_stop_all reason cells = each_bot (halt_bot reason) cells

  unfoldable stop_all : Dict (Cell R) → Result (Unit {0}) × Dict (Cell R)
  unfolding each_bot stop
  stop_all cells = each_bot stop cells

  -- The new section of a bot, whose depth engine reads it too. The order manager, the safety parts and
  -- the inventory keep what they were made with.
  abbrev pub reload_cell : BotConfig R → ExchangeBotConfig R → Cell R → Cell R
  reload_cell config ex c = record c {
    parts = record c.parts {
      config = ex;
      spread_engine = create ex.spread nought;
      agg_cfg = config.volatility;
    };
  }

  abbrev pub reload_found : BotConfig R → ExchangeBotConfig R → Dict (Cell R) → Dict (Cell R)
  reload_found config ex cells = elim (lookup ex.exchange cells) [
    | none ↦ cells
    | some c ↦ insert ex.exchange (reload_cell config ex c) cells
  ]

  unfoldable pub reload_bots :
      BotConfig R → List (ExchangeBotConfig R) → Dict (Cell R) → Dict (Cell R)
  unfolding create
  reload_bots config [] cells = cells
  reload_bots config (ex ∷ exchanges) cells =
      reload_bots config exchanges (reload_found config ex cells)

  -- The models, the engine and the detector of the orchestrator, and the bots.
  unfoldable pub trigger_config_reload :
      {Mo V : Type 0}
      → BotConfig R
      → Models R Mo
      → Orchestrator R Mo V
      → Dict (Cell R)
      → Models R Mo × Orchestrator R Mo V × Dict (Cell R)
  unfolding reload_bots enabled_exchanges
  trigger_config_reload config models t cells = (
    record models { volatility = config.volatility },
    record t {
      weights = config.global_mid_weights;
      vol_engine = fresh_engine;
      hmm_detector = if config.volatility.hmm.enabled then some (fresh models.library) else none;
    },
    reload_bots config (enabled_exchanges config) cells,
  )
