-- ===== src/Orchestrator/Reload.antt =====
-- The reload of the configuration.
use mmp_meridian.Prelude.{
  ◌≡◌, refl, ◌∙◌, some, String, List, [], ◌∷◌, map, inl, inr, Option-cases, arith,
}
use mmp_meridian.Prelude.Dict.{Dict, lookup, insert}
use mmp_meridian.Float.{Float}
use mmp_meridian.Config.{BotConfig, ExchangeBotConfig, SafetyConfig}
use mmp_meridian.Bot.State.{Bot}
use mmp_meridian.Orchestrator.{Orchestrator}
use mmp_meridian.Orchestrator.Control.{Cell, reload_cell, reload_found, reload_bots}

module _ {R : Type 0} ⦃f : Float R⦄ (config : BotConfig R) where
  -- What a reload leaves of a bot.
  abbrev pub kept_of : String × Cell R → String × Bot R × SafetyConfig R
  kept_of (name, c) = (name, c.bot, c.parts.safety)

  insert_kept :
      (name : String) (ex : ExchangeBotConfig R) (c : Cell R) (cells : Dict (Cell R))
      → lookup name cells ≡ some c
      → map kept_of (insert name (reload_cell config ex c) cells) ≡ map kept_of cells
  insert_kept name ex c [] h = absurd (ground arith)
  insert_kept name ex c ((n, d) ∷ cells) h = ground (arith, h, insert_kept name ex c cells)

  reload_found_kept :
      (ex : ExchangeBotConfig R) (cells : Dict (Cell R))
      → map kept_of (reload_found config ex cells) ≡ map kept_of cells
  reload_found_kept ex cells = elim (Option-cases (lookup ex.exchange cells)) [
    | inl e ↦ ground (arith, e)
    | inr (c, e) ↦ ground (arith, e, insert_kept ex.exchange ex c cells e)
  ]

  pub reload_bots_kept :
      (exchanges : List (ExchangeBotConfig R)) (cells : Dict (Cell R))
      → map kept_of (reload_bots config exchanges cells) ≡ map kept_of cells
  unfolding reload_bots
  reload_bots_kept [] cells = refl
  reload_bots_kept (ex ∷ exchanges) cells =
      reload_bots_kept exchanges (reload_found config ex cells) ∙ reload_found_kept ex cells
