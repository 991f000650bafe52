-- ===== src/Bot/Halted.antt =====
-- A bot whose Q-Switch is triggered opens nothing.
use mmp_meridian.Prelude.{
  ℕ, ◌+◌, ◌≡◌, refl, ◌⊎◌, true, false, Option, none, some, String, List, [], ◌∷◌, arith,
}
use mmp_meridian.Prelude.Run.{Returns, Returns-bind, for_each}
use mmp_meridian.Prelude.Dict.{keys}
use mmp_meridian.Float.{Float}
use mmp_meridian.Exchange.{Balance, canceled}
use mmp_meridian.Safety.QSwitch.{trigger_manually}
use mmp_meridian.Orders.Monad.{
  Outside, Manager, Call, acquire, fetch_open_orders, cancel_all_orders, create_limit_order,
  cancel_order, insert_order, update_order_status,
}
use mmp_meridian.Orders.Manager.{Settings, cancel_all}
use mmp_meridian.Orders
use mmp_meridian.Regime.Parameters.{MmParameters}
use mmp_meridian.Regime.Master.{GlobalState}
use mmp_meridian.Bot.State.{Answers, Parts, Bot}
use mmp_meridian.Bot.Tick.{admit, tick, work_if}
use mmp_meridian.Bot.Frame.{Same}
use mmp_meridian.Bot.Admission.{Admits, admit-Admits}
use mmp_meridian.Bot.Loop.{
  Event, turned, task_cancelled, heartbeat_failed, stopped, regime_sent, paused, resumed,
  resumption, resumptions, pull_switch, run_turn, emergency_stop, stop, handle, run,
}

-- How many orders have been asked of the exchange.
abbrev creations : {R : Type 0} → List (Call R) → ℕ
creations [] = 0
creations (create_limit_order side price amount ∷ cs) = creations cs + 1
creations (acquire ∷ cs) = creations cs
creations (fetch_open_orders ∷ cs) = creations cs
creations (cancel_all_orders ∷ cs) = creations cs
creations (cancel_order id ∷ cs) = creations cs
creations (insert_order o ∷ cs) = creations cs
creations (update_order_status id status ∷ cs) = creations cs

-- From `m` to `m'` no order was asked of the exchange, and none entered the cache.
abbrev pub OpensNothing : {R : Type 0} → Manager R → Manager R → Type 0
OpensNothing m m' =
    (creations m'.calls ≡ creations m.calls)
    × ((m'.open_orders ≡ m.open_orders) ⊎ (m'.open_orders ≡ []))

module _ {R : Type 0} ⦃f : Float R⦄ (out : Outside R) (cfg : Settings R) where
  mark_canceled :
      (ids : List String) (m : Manager R)
      → let m' =
          (for_each (λ id. Orders.Manager.update_order_status out cfg id canceled) ids m).1 in
        (creations m'.calls ≡ creations m.calls) × (m'.open_orders ≡ m.open_orders)
  unfolding Orders.Manager.update_order_status
  mark_canceled [] m = (refl, refl)
  mark_canceled (id ∷ ids) m =
      ground (arith, mark_canceled ids (Orders.Manager.update_order_status out cfg id canceled m).1)

  pub cancel_all-OpensNothing : (m : Manager R) → OpensNothing m (cancel_all out cfg m).1
  unfolding cancel_all
  cancel_all-OpensNothing m =
      let told = record m {
        count = m.count + 1 + 1;
        calls = cancel_all_orders ∷ acquire ∷ m.calls;
      } in
      ground (arith, mark_canceled (keys m.open_orders) m, mark_canceled (keys m.open_orders) told)

-- A halted bot stays halted, and opens nothing.
pub record StaysHalted {R : Type 0} (b b' : Bot R) : Type 0 where
  pub halted : b'.q_switch.triggered ≡ true
  pub quiet : OpensNothing b.order_manager b'.order_manager

module _ {R : Type 0} where
  quiet_of_Same : {b b' : Bot R} → b.q_switch.triggered ≡ true → Same b b' → StaysHalted b b'
  quiet_of_Same h e = record { halted = ground arith; quiet = ground arith }

  quiet_trans : {b c d : Bot R} → StaysHalted b c → StaysHalted c d → StaysHalted b d
  quiet_trans h k = record { halted = k.halted; quiet = ground (arith, h.quiet, k.quiet) }

module _ {R : Type 0} ⦃f : Float R⦄ (out : Answers R) (p : Parts R) where
  work_halted :
      (s : GlobalState R) (b c : Bot R) (found : Option (MmParameters R × Balance R))
      → b.q_switch.triggered ≡ true
      → Admits out p s b found c
      → Returns (λ _ b'. Same b b') (work_if out p s found c)
  work_halted s b c none h v = ground (arith, v)
  work_halted s b c (some (mm, balance)) h v = absurd (ground (arith, v))

  tick_halted :
      (s : GlobalState R) (b : Bot R)
      → b.q_switch.triggered ≡ true
      → Returns (λ _ b'. Same b b') (tick out p s b)
  unfolding tick
  tick_halted s b h =
      Returns-bind _ (admit out p s) (work_if out p s) b (admit-Admits out p s b)
        λ found c v. work_halted s b c found h v

  pull_switch_lem :
      (text : String) (b : Bot R)
      → let b' = (pull_switch out p text b).1 in
        (b'.order_manager ≡ b.order_manager) × (b'.q_switch.triggered ≡ true)
  unfolding pull_switch trigger_manually
  pull_switch_lem text b = ground arith

  emergency_stop_halts : (b : Bot R) → StaysHalted b (emergency_stop out p b).1
  unfolding emergency_stop
  emergency_stop_halts b =
      let c = (pull_switch out p "Heartbeat failure" (record b { running = false })).1 in
      ground (
        arith,
        pull_switch_lem "Heartbeat failure" (record b { running = false }),
        cancel_all-OpensNothing out.orders p.orders c.order_manager,
      )

  stop_quiet :
      (b : Bot R)
      → let b' = (stop out p b).1 in
        OpensNothing b.order_manager b'.order_manager × (b'.q_switch ≡ b.q_switch)
  unfolding stop
  stop_quiet b = ground (arith, cancel_all-OpensNothing out.orders p.orders b.order_manager)

  run_turn_halted :
      (s : Option (GlobalState R)) (b : Bot R)
      → b.q_switch.triggered ≡ true
      → Same b (run_turn out p s b).1
  unfolding run_turn
  run_turn_halted none b h = ground arith
  run_turn_halted (some s) b h = ground (arith, tick_halted s b h)

  handle_halted :
      (e : Event R) (b : Bot R)
      → b.q_switch.triggered ≡ true
      → resumption e ≡ 0
      → StaysHalted b (handle out p e b)
  unfolding handle
  handle_halted (turned s) b h k = quiet_of_Same h (ground (arith, run_turn_halted s b h))
  handle_halted task_cancelled b h k = quiet_of_Same h (ground arith)
  handle_halted heartbeat_failed b h k = emergency_stop_halts b
  handle_halted stopped b h k = ground (arith, stop_quiet b)
  handle_halted (regime_sent rs) b h k = quiet_of_Same h (ground arith)
  handle_halted paused b h k = ground (arith, pull_switch_lem "Paused via API" b)
  handle_halted resumed b h k = absurd (omega arith)

  -- Once the Q-Switch of a bot is triggered, no sequence of events without a resumption by the API,
  -- whatever the exchange and the database answer, makes the bot ask the exchange for an order or
  -- adds an order to its cache, and the switch stays triggered: turns of the loop with any states,
  -- reconnections, both stops, regimes and pauses.
  pub run_halted :
      (es : List (Event R)) (b : Bot R)
      → b.q_switch.triggered ≡ true
      → resumptions es ≡ 0
      → StaysHalted b (run out p es b)
  unfolding run
  run_halted [] b h k = quiet_of_Same h (refl, refl)
  run_halted (e ∷ es) b h k =
      let v = handle_halted e b h (omega arith) in
      quiet_trans v (run_halted es (handle out p e b) v.halted (omega arith))
