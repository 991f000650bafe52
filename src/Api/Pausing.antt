-- ===== src/Api/Pausing.antt =====
-- What a pause and a resumption do to the bots.
use mmp_meridian.Prelude.{
  ◌≡◌, ◌≢◌, refl, true, false, none, some, String, List, [], ◌∷◌, str_eq_iff, Option-cases, inl,
  inr, arith,
}
use mmp_meridian.Prelude.Dict.{Dict, lookup, insert, lookup-insert}
use mmp_meridian.Float.{Float}
use mmp_meridian.Safety.QSwitch.{trigger_manually}
use mmp_meridian.Safety.CircuitBreaker
use mmp_meridian.Bot.Loop.{Event, paused, resumptions, handle, run, pull_switch}
use mmp_meridian.Bot.Halted.{StaysHalted, run_halted}
use mmp_meridian.Orchestrator.Control.{Cell}
use mmp_meridian.Api.Routes.{success, not_found, Pydantic, App, pause_exchange, tell, respond}

module _ {R : Type 0} ⦃f : Float R⦄ where
  -- Whatever happens to the bot from now on, but for a resumption, it opens nothing and stays halted.
  abbrev pub IsPaused : Cell R → Type 0
  IsPaused c =
      (c.bot.q_switch.triggered ≡ true)
      × ((es : List (Event R))
          → resumptions es ≡ 0
          → StaysHalted c.bot (run c.out c.parts es c.bot))

  tell_paused : (c : Cell R) → IsPaused (tell paused c)
  unfolding tell handle pull_switch trigger_manually
  tell_paused c =
      let b = handle c.out c.parts paused c.bot in
      let halted : b.q_switch.triggered ≡ true = ground arith in
      (halted, λ es h. run_halted c.out c.parts es b halted h)

  -- Neither safety part halts the bot, and its loop, its orders and its inventory are as before.
  abbrev IsResumed : Cell R → Cell R → Type 0
  IsResumed c c' =
      (c'.bot.q_switch.triggered ≡ false)
      × (c'.bot.circuit_breaker.tripped ≡ false)
      × (c'.bot.running ≡ c.bot.running)
      × (c'.bot.order_manager ≡ c.bot.order_manager)
      × (c'.bot.inventory ≡ c.bot.inventory)

  -- The bots one by one.
  abbrev pub AreResumed : Dict (Cell R) → Dict (Cell R) → Type 0
  AreResumed [] [] = Unit
  AreResumed ((name, c) ∷ cells) ((name', c') ∷ cells') =
      (name ≡ name') × IsResumed c c' × AreResumed cells cells'
  AreResumed _ _ = ⊥

  module _ {Mo V J : Type 0} (py : Pydantic R J) where
    unknown :
        (name : String) (app : App R Mo V)
        → lookup name app.bots ≡ none
        → respond py (pause_exchange name) app ≡ (not_found, app)
    unfolding respond
    unknown name app e = ground (arith, e)

    known :
        (name : String) (app : App R Mo V) (c : Cell R)
        → lookup name app.bots ≡ some c
        → respond py (pause_exchange name) app
          ≡ (success, record app { bots = insert name (tell paused c) app.bots })
    unfolding respond
    known name app c e = ground (arith, e)

    -- A pause of one exchange: without a bot of that name it is answered with 404 and changes nothing;
    -- otherwise that bot is halted and opens nothing until it is resumed, and all others are as before.
    respond_to_one :
        (name : String) (app : App R Mo V)
        → let (s, app') = respond py (pause_exchange name) app in
          (lookup name app.bots ≡ none → (s ≡ not_found) × (app' ≡ app))
          × (lookup name app.bots ≢ none
              → (s ≡ success)
                × ((c : Cell R) × (lookup name app'.bots ≡ some c) × IsPaused c)
                × ((other : String)
                    → other ≢ name
                    → lookup other app'.bots ≡ lookup other app.bots))
    respond_to_one name app = elim (Option-cases (lookup name app.bots)) [
      | inl e ↦ (λ _. rw (unknown name app e) (refl, refl), λ h. absurd (h e))
      | inr (c, e) ↦ (
        λ h. absurd (ground arith),
        λ h. rw (known name app c e) (
          refl,
          (
            tell paused c,
            ground (arith, lookup-insert name name (tell paused c) app.bots, str_eq_iff name name),
            tell_paused c,
          ),
          λ other k.
              ground
                (arith, lookup-insert name other (tell paused c) app.bots, str_eq_iff name other),
        ),
      )
    ]
