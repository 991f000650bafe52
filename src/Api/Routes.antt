-- ===== src/Api/Routes.antt =====
-- api/routes.py and the middleware of api/app.py: who may call a control route, and what it does to the
-- orchestrator and its bots. The answers of the routes that only read are left out, but for their errors.
use mmp_meridian.Prelude.{
  ℕ, suc, Bool, true, false, ◌&&◌, Option, none, some, String, List, [], ◌∷◌, str_eq, if◌then◌else◌,
}
use mmp_meridian.Prelude.Dict.{Dict, lookup, insert}
use mmp_meridian.Prelude.Run.{ok, raised}
use mmp_meridian.Float.{Float}
use mmp_meridian.Config.{BotConfig, ExchangeBotConfig}
use mmp_meridian.Bot.Loop.{Event, paused, resumed, handle}
use mmp_meridian.Orchestrator.{Orchestrator, Models}
use mmp_meridian.Orchestrator.Control.{Cell, emergency_stop_all, trigger_config_reload}

-- The keys that are configured: `MM_API_KEY` of the environment, of which the middleware asks on the
-- control routes, and `api_key` of the settings, of which the routes ask. An empty text or `None` is
-- none.
pub record Keys : Type 0 where
  pub mm_api_key : String
  pub api_key : Option String

-- What a request brings: the header Authorization without "Bearer ", empty if there is none, and the
-- header X-API-Key.
pub record Headers : Type 0 where
  pub token : String
  pub x_api_key : Option String

-- A route with its arguments; `J` are the bodies, as JSON.
pub data Route (J : Type 0) : Type 0 where
  pause_all resume_all emergency_stop : Route J
  pause_exchange resume_exchange : String → Route J
  update_config : J → Route J
  update_exchange_config : String → J → Route J
  get_exchange_status : String → Route J

-- The status of the response; a call that raises is answered with 500.
pub data Status : Type 0 where
  success unauthorized not_found unprocessable failed : Status

-- pydantic: `validate` is `BotConfig.model_validate`, `updated` dumps a configuration and updates the
-- section of an index with a body. `saves` says whether bot.json can be written.
pub record Pydantic (R J : Type 0) : Type 0 where
  pub validate : J → Option (BotConfig R)
  pub updated : BotConfig R → ℕ → J → J
  pub saves : Bool
  -- Whether the dashboard takes the event.
  pub emits : Bool

pub record App (R Mo V : Type 0) : Type 0 where
  pub config : BotConfig R
  pub models : Models R Mo
  pub orchestrator : Orchestrator R Mo V
  pub bots : Dict (Cell R)
  -- The configuration that bot.json holds.
  pub saved : Option (BotConfig R)

-- The place of the first section of an exchange.
abbrev pub section_of : {R : Type 0} → String → List (ExchangeBotConfig R) → Option ℕ
section_of name [] = none
section_of name (ex ∷ exchanges) =
    let rest = section_of name exchanges in
    if str_eq ex.exchange name then some 0 else elim rest [ none ↦ none | some n ↦ some (suc n) ]

abbrev pub is_control : {J : Type 0} → Route J → Bool
is_control pause_all = true
is_control resume_all = true
is_control emergency_stop = true
is_control (pause_exchange name) = true
is_control (resume_exchange name) = true
is_control (update_config body) = false
is_control (update_exchange_config name body) = false
is_control (get_exchange_status name) = false

-- The routes that depend on `_require_api_key`.
abbrev pub is_keyed : {J : Type 0} → Route J → Bool
is_keyed pause_all = true
is_keyed resume_all = true
is_keyed emergency_stop = true
is_keyed (pause_exchange name) = true
is_keyed (resume_exchange name) = true
is_keyed (update_config body) = true
is_keyed (update_exchange_config name body) = true
is_keyed (get_exchange_status name) = false

abbrev pub option_eq : Option String → String → Bool
option_eq none t = false
option_eq (some s) t = str_eq s t

abbrev required : Option String → Headers → Bool
required none h = true
required (some key) h = if str_eq key "" then true else option_eq h.x_api_key key

unfoldable pub is_authorized : {J : Type 0} → Keys → Headers → Route J → Bool
is_authorized keys h route =
    (if str_eq keys.mm_api_key ""
      then true
      else if is_control route
      then str_eq h.token keys.mm_api_key
      else true)
    && (if is_keyed route then required keys.api_key h else true)

module _ {R : Type 0} ⦃f : Float R⦄ where
  -- The API pauses or resumes one bot.
  unfoldable pub tell : Event R → Cell R → Cell R
  unfolding handle
  tell e c = record c { bot = handle c.out c.parts e c.bot }

  unfoldable pub tell_all : Event R → Dict (Cell R) → Dict (Cell R)
  unfolding tell
  tell_all e [] = []
  tell_all e ((name, c) ∷ cells) = (name, tell e c) ∷ tell_all e cells

  module _ {Mo V J : Type 0} (py : Pydantic R J) where
    abbrev tell_one : Event R → String → App R Mo V → Status × App R Mo V
    tell_one e name app = elim (lookup name app.bots) [
      | none ↦ (not_found, app)
      | some c ↦ (success, record app { bots = insert name (tell e c) app.bots })
    ]

    unfoldable stop_bots : App R Mo V → Status × App R Mo V
    unfolding emergency_stop_all
    stop_bots app =
        let (r, cells) = emergency_stop_all "Emergency stop via API" app.bots in
        let app' = record app { bots = cells } in
        elim r [ ok _ ↦ (if py.emits then success else failed, app') | raised ↦ (failed, app') ]

    -- What a new configuration does once it has been accepted.
    unfoldable pub apply : BotConfig R → App R Mo V → Status × App R Mo V
    unfolding trigger_config_reload
    apply config app =
        let (models, orchestrator, bots) =
          trigger_config_reload config app.models app.orchestrator app.bots in
        let app' : App R Mo V = record {
          config = config;
          models = models;
          orchestrator = orchestrator;
          bots = bots;
          saved = some config;
        } in
        if py.saves then (if py.emits then success else failed, app') else (failed, app)

    abbrev pub accept : Option (BotConfig R) → App R Mo V → Status × App R Mo V
    accept none app = (unprocessable, app)
    accept (some config) app = apply config app

    abbrev pub accept_at : Option ℕ → J → App R Mo V → Status × App R Mo V
    accept_at none body app = (not_found, app)
    accept_at (some i) body app = accept (py.validate (py.updated app.config i body)) app

    unfoldable pub respond : Route J → App R Mo V → Status × App R Mo V
    unfolding tell tell_all stop_bots apply
    respond pause_all app = (success, record app { bots = tell_all paused app.bots })
    respond resume_all app = (success, record app { bots = tell_all resumed app.bots })
    respond emergency_stop app = stop_bots app
    respond (pause_exchange name) app = tell_one paused name app
    respond (resume_exchange name) app = tell_one resumed name app
    respond (update_config body) app = accept (py.validate body) app
    respond (update_exchange_config name body) app =
        accept_at (section_of name app.config.exchanges) body app
    respond (get_exchange_status name) app = elim (lookup name app.bots) [
      | none ↦ (not_found, app)
      | some c ↦ (success, app)
    ]

    unfoldable pub request : Keys → Headers → Route J → App R Mo V → Status × App R Mo V
    unfolding is_authorized respond
    request keys h route app =
        if is_authorized keys h route then respond route app else (unauthorized, app)
