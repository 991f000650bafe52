-- ===== src/Api/Tests.antt =====
-- The API on concrete requests, and a client of the live feed.
use mmp_meridian.Prelude.{ℕ, ◌≡◌, refl, none, some, true, List, [], ◌∷◌, All, arith, str_eq_iff}
use mmp_meridian.Prelude.Int.{ℤ}
use mmp_meridian.Float.Fixed.{fixed}
use mmp_meridian.Samples.Orchestrators.{cell, config, models, orchestrator}
use mmp_meridian.Regime.Observation.{Regime}
use mmp_meridian.Api.Feed.{Client, LiveFeed, subscribed, delivered, broadcasted, run, Event}
use mmp_meridian.Api.Heard.{Heard, broadcasts, run-Heard}
use mmp_meridian.Api.Routes.{
  Keys, Headers, get_exchange_status, unauthorized, Pydantic, App, request,
}
use mmp_meridian.Api.Access.{control_routes, config_routes, request_without_key}

abbrev py : Pydantic ℤ ℕ
py = record { validate = λ j. some config; updated = λ c i j. j; saves = true; emits = true }

abbrev app : App ℤ ℕ Regime
app = record {
  config = config;
  models = models;
  orchestrator = orchestrator;
  bots = ("kucoin", cell) ∷ ("gate", cell) ∷ [];
  saved = none;
}

abbrev keys : Keys
keys = record { mm_api_key = "secret"; api_key = some "other" }

abbrev wrong : Headers
wrong = record { token = "guess"; x_api_key = none }

request_without_key_example :
    All (λ r. request py keys wrong r app ≡ (unauthorized, app)) (control_routes "kucoin")
    × All (λ r. request py keys wrong r app ≡ (unauthorized, app)) (config_routes "kucoin" 3)
    × ((request py keys wrong (get_exchange_status "gate") app).1 ≡ app)
request_without_key_example =
    request_without_key py keys wrong "other" refl
      (λ e. absurd (ground (arith, str_eq_iff "other" "", e))) (λ e. absurd (ground (arith, e)))
      "kucoin" 3 (get_exchange_status "gate") app

-- A feed with one client, the numbers 1, 2, ... as messages.
abbrev client : Client ℕ
client = record { registered = true; queue = 1 ∷ []; sent = [] }

abbrev feed : LiveFeed ℕ
feed n = some client

abbrev happened : List (Event ℕ)
happened = broadcasted 2 ∷ delivered 5 ∷ subscribed 6 ∷ broadcasted 3 ∷ []

run-Heard_example :
    (d : Client ℕ) × (run happened feed 5 ≡ some d) × Heard (broadcasts happened) client d
run-Heard_example =
    run-Heard 5 happened feed client (tt, (tt, ((λ e. absurd (omega (arith, e))), (tt, tt)))) refl
      (omega arith)
