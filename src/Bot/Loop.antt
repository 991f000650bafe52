-- ===== src/Bot/Loop.antt =====
-- The life of the bot: the turns of `_run_loop`, the reconnection, the two stops, and what the API
-- and the regime master do to it. A handler runs to its end before the next event: the interleavings
-- of two handlers at their awaits are left out.
use mmp_meridian.Prelude.{
  ℕ, ◌+◌, Bool, true, false, Option, none, some, String, List, [], ◌∷◌, if◌then◌else◌,
}
use mathlib.Core.Option
use mmp_meridian.Prelude.Run.{try_except, modify, ◌>>=◌, ◌>>◌}
use mmp_meridian.Float.{Float}
use mmp_meridian.Safety.QSwitch.{trigger_manually, reset}
use mmp_meridian.Safety.CircuitBreaker
use mmp_meridian.Safety.Heartbeat.{beat}
use mmp_meridian.Orders.Manager.{cancel_all}
use mmp_meridian.Regime.Master.{GlobalState, RegimeState, put_nowait}
use mmp_meridian.Bot.State.{
  Call, Exception, timeout_error, cancelled_error, other_error, Answers, Parts, Bot, B, read,
  managed, request,
}
use mmp_meridian.Bot.Tick.{tick, warmup, skip}

-- What happens to a bot, in the order in which the event loop lets it happen.
pub data Event (R : Type 0) : Type 0 where
  -- A turn of the loop, with the state that it waited for; `none` is the timeout.
  turned : Option (GlobalState R) → Event R
  -- The task of the loop is cancelled while it waits.
  task_cancelled : Event R
  -- The heartbeat monitor gives up.
  heartbeat_failed : Event R
  -- The orchestrator stops the bot.
  stopped : Event R
  -- The regime master broadcasts.
  regime_sent : RegimeState R → Event R
  -- The API pauses and resumes the bot.
  paused resumed : Event R

-- How often the API resumes the bot.
abbrev pub resumption : {R : Type 0} → Event R → ℕ
resumption resumed = 1
resumption (turned s) = 0
resumption task_cancelled = 0
resumption heartbeat_failed = 0
resumption stopped = 0
resumption (regime_sent rs) = 0
resumption paused = 0

abbrev pub resumptions : {R : Type 0} → List (Event R) → ℕ
resumptions [] = 0
resumptions (e ∷ es) = resumption e + resumptions es

module _ {R : Type 0} ⦃f : Float R⦄ (out : Answers R) (p : Parts R) where
  unfoldable pub pull_switch : String → B R (Unit {0})
  unfolding trigger_manually
  pull_switch text = do
    time ← read out.now
    modify λ b. record b {
      q_switch = trigger_manually p.safety p.config.exchange text time b.q_switch;
    }

  abbrev halt_loop : B R (Unit {0})
  halt_loop = modify λ b. record b { running = false }

  unfoldable pub try_reconnect : B R (Unit {0})
  unfolding pull_switch
  try_reconnect =
      try_except (request Call.reconnect out.reconnect)
        (do halt_loop; pull_switch "Reconnect failed — manual review required")

  unfoldable pub emergency_stop : B R (Unit {0})
  unfolding pull_switch cancel_all
  emergency_stop = do
    halt_loop
    pull_switch "Heartbeat failure"
    managed (cancel_all out.orders p.orders)
    request Call.emit_emergency_stop out.emit

  unfoldable pub stop : B R (Unit {0})
  unfolding cancel_all
  stop = do
    halt_loop
    managed (cancel_all out.orders p.orders)
    request Call.disconnect out.disconnect

  abbrev beat_now : B R (Unit {0})
  beat_now = do
    time ← read out.now
    modify λ b. record b { heartbeat = beat p.safety time b.heartbeat }

  -- The handler of the exceptions that are neither a timeout nor a cancellation.
  unfoldable pub recover : B R (Unit {0})
  unfolding try_reconnect
  recover = do connected ← read out.is_connected; if connected then skip out p else try_reconnect

  -- `while self._running`
  abbrev test_running : B R (Unit {0})
  test_running = modify λ b. record b { in_loop = b.running }

  -- `break`
  abbrev break_loop : B R (Unit {0})
  break_loop = modify λ b. record b { in_loop = false }

  unfoldable pub caught : Exception → B R (Unit {0})
  unfolding recover
  caught timeout_error = test_running
  caught cancelled_error = break_loop
  caught other_error = recover >> test_running

  -- One turn of `_run_loop` from its wait to the next test: with no state in time, that is the handler
  -- of the timeout.
  unfoldable pub run_turn : Option (GlobalState R) → B R (Unit {0})
  unfolding tick beat caught
  run_turn none = caught timeout_error
  run_turn (some s) =
      try_except (do tick out p s; beat_now; test_running) (do e ← read out.exception; caught e)

  -- `start`, up to the loop.
  unfoldable pub start : B R (Unit {0})
  unfolding warmup
  start = do
    request Call.connect out.connect
    warmup out p
    modify λ b. record b { running = true; in_loop = true }

  -- Nothing comes to a loop that is over.
  abbrev turn_if : Bool → Option (GlobalState R) → B R (Unit {0})
  turn_if true s = run_turn s
  turn_if false s = skip out p

  abbrev send_regime : RegimeState R → Bot R → Bot R
  send_regime rs b = record b { regime_queue = Option.map (put_nowait rs) b.regime_queue }

  unfoldable pub handle : Event R → Bot R → Bot R
  unfolding run_turn emergency_stop stop pull_switch reset CircuitBreaker.reset put_nowait
  handle (turned s) b = (turn_if b.in_loop s b).1
  handle task_cancelled b = (break_loop b).1
  handle heartbeat_failed b = (emergency_stop b).1
  handle stopped b = (stop b).1
  handle (regime_sent rs) b = send_regime rs b
  handle paused b = (pull_switch "Paused via API" b).1
  handle resumed b = record b {
    q_switch = reset p.safety p.config.exchange b.q_switch;
    circuit_breaker = CircuitBreaker.reset b.circuit_breaker;
  }

  unfoldable pub run : List (Event R) → Bot R → Bot R
  unfolding handle
  run [] b = b
  run (e ∷ es) b = run es (handle e b)
