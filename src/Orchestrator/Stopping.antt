-- ===== src/Orchestrator/Stopping.antt =====
-- The emergency stop of all bots.
use mmp_meridian.Prelude.{◌≡◌, refl, ap, ◌∙◌, true, String, [], ◌∷◌, ◌++◌, All, arith}
use mathlib.Core.Path.{ap₂}
use mmp_meridian.Prelude.Dict.{Dict}
use mmp_meridian.Prelude.Run.{ok, raised}
use mmp_meridian.Float.{Float}
use mmp_meridian.Safety.QSwitch.{trigger_manually}
use mmp_meridian.Bot.Loop.{pull_switch}
use mmp_meridian.Bot.Recovery.{Cancels, cancel_all-clears}
use mmp_meridian.Orchestrator.Control.{Cell, each_bot, halt_bot, emergency_stop_all}

module _ {R : Type 0} ⦃f : Float R⦄ where
  abbrev pub IsStopped : Cell R → Type 0
  IsStopped c = (c.bot.order_manager.open_orders ≡ []) × (c.bot.q_switch.triggered ≡ true)

  abbrev WillCancel : Cell R → Type 0
  WillCancel c = Cancels c.out.orders c.parts.orders

  halt_bot-IsStopped :
      (reason : String) (c : Cell R)
      → WillCancel c
      → let (r, b) = halt_bot reason c.out c.parts c.bot in
        (r ≡ ok tt) × IsStopped (record c { bot = b })
  unfolding halt_bot pull_switch trigger_manually
  halt_bot-IsStopped reason c h =
      ground (arith, cancel_all-clears c.out.orders c.parts.orders c.bot.order_manager h)

  -- While no cancellation raises, the loop goes over the bots and stops each; it goes on to the rest.
  stops_through :
      (reason : String) (cells rest : Dict (Cell R))
      → All (λ (name, c). WillCancel c) cells
      → let (r, done) = each_bot (halt_bot reason) cells in
        let (r', all) = each_bot (halt_bot reason) (cells ++ rest) in
        let (r'', others) = each_bot (halt_bot reason) rest in
        (r ≡ ok tt) × All (λ (name, c). IsStopped c) done × (r' ≡ r'') × (all ≡ done ++ others)
  unfolding each_bot
  stops_through reason [] rest h = (refl, tt, refl, refl)
  stops_through reason ((name, c) ∷ cells) rest (h, hs) =
      let (e, stopped) = halt_bot-IsStopped reason c h in
      let (e', done, same, joined) = stops_through reason cells rest hs in
      let b = (halt_bot reason c.out c.parts c.bot).1 in
      rw (each_bot, e)
        (e', (stopped, done), same, ap (λ x. (name, record c { bot = b }) ∷ x) joined)

  each_bot_raised :
      (reason name : String) (c : Cell R) (rest : Dict (Cell R))
      → let (r, b) = halt_bot reason c.out c.parts c.bot in
        r ≡ raised
        → each_bot (halt_bot reason) ((name, c) ∷ rest)
          ≡ (raised, (name, record c { bot = b }) ∷ rest)
  unfolding each_bot
  each_bot_raised reason name c rest e = rw (each_bot, e)

  -- An emergency stop of all bots, none of whose cancellations raises, returns and leaves each bot
  -- without open orders and with its Q-Switch triggered. The first cancellation that raises ends it:
  -- the bots before are stopped, those after are left as they were and go on quoting.
  pub emergency_stop_all_lem :
      (reason name : String) (cells rest : Dict (Cell R)) (c : Cell R)
      → All (λ (name, c). WillCancel c) cells
      → (let (r, done) = emergency_stop_all reason cells in
          (r ≡ ok tt) × All (λ (name, c). IsStopped c) done)
        × (let (r, b) = halt_bot reason c.out c.parts c.bot in
            r ≡ raised
            → emergency_stop_all reason (cells ++ (name, c) ∷ rest) ≡ (
              raised,
              (emergency_stop_all reason cells).1 ++ (name, record c { bot = b }) ∷ rest,
            ))
  unfolding emergency_stop_all
  emergency_stop_all_lem reason name cells rest c h =
      let (e, done, _, _) = stops_through reason cells [] h in
      let (_, _, same, joined) = stops_through reason cells ((name, c) ∷ rest) h in
      (
        (e, done),
        λ k.
            let one = each_bot_raised reason name c rest k in
            ap₂ (λ x y. (x, y)) (same ∙ ap (λ x. x.0) one)
              (joined ∙ ap (λ x. (each_bot (halt_bot reason) cells).1 ++ x.1) one),
      )
