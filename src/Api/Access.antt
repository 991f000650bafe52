-- ===== src/Api/Access.antt =====
-- Who may change what through the API.
use mmp_meridian.Prelude.{
  ◌≡◌, ◌≢◌, refl, ap, ℕ, true, Option, none, some, String, map, str_eq_iff, inl, inr, Bool, false,
  List, [], ◌∷◌, All, Bool-cases, arith,
}
use mmp_meridian.Float.{Float}
use mmp_meridian.Config.{BotConfig}
use mmp_meridian.Orchestrator.Reload.{kept_of}
use mmp_meridian.Api.Routes.{
  Keys, Headers, Route, Status, pause_all, resume_all, emergency_stop, pause_exchange,
  resume_exchange, get_exchange_status, unauthorized, unprocessable, not_found, success, failed,
  Pydantic, App, is_authorized, is_keyed, option_eq, respond, request, update_config,
  update_exchange_config,
}

option_eq_iff : (o : Option String) (t : String) → option_eq o t ≡ true → o ≡ some t
option_eq_iff none t h = absurd (ground arith)
option_eq_iff (some s) t h = ap some ((str_eq_iff s t).0 h)

-- The routes that change something, with an exchange and a body.
abbrev pub control_routes : {J : Type 0} → String → List (Route J)
control_routes name =
    pause_all ∷ resume_all ∷ emergency_stop ∷ pause_exchange name ∷ resume_exchange name ∷ []

abbrev pub config_routes : {J : Type 0} → String → J → List (Route J)
config_routes name body = update_config body ∷ update_exchange_config name body ∷ []

module _ {J : Type 0} (keys : Keys) (h : Headers) (route : Route J) where
  unkeyed :
      (key : String)
      → keys.api_key ≡ some key
      → key ≢ ""
      → h.x_api_key ≢ some key
      → is_keyed route ≡ true
      → is_authorized keys h route ≡ false
  unfolding is_authorized
  unkeyed key i k n c = ground (arith, str_eq_iff key "", option_eq_iff h.x_api_key key)

module _ {R Mo V : Type 0} ⦃f : Float R⦄ where
  -- A change that was made: the configuration runs and is saved, and the bots keep their states and the
  -- safety limits that they were started with.
  abbrev IsApplied : BotConfig R → App R Mo V → App R Mo V → Type 0
  IsApplied config app app' =
      (app'.config ≡ config)
      × (app'.saved ≡ some config)
      × (map (kept_of config) app'.bots ≡ map (kept_of config) app.bots)

  -- How a change to a configuration that was accepted ends, by whether bot.json can be written and
  -- whether the dashboard takes the event.
  abbrev Finishes : Bool → Bool → BotConfig R → App R Mo V → Status × App R Mo V → Type 0
  Finishes false emits config app r = r ≡ (failed, app)
  Finishes true true config app r = (r.0 ≡ success) × IsApplied config app r.1
  Finishes true false config app r = (r.0 ≡ failed) × IsApplied config app r.1

module _ {R Mo V J : Type 0} ⦃f : Float R⦄ (py : Pydantic R J) where
  refused :
      (keys : Keys) (h : Headers) (route : Route J) (app : App R Mo V)
      → is_authorized keys h route ≡ false
      → request py keys h route app ≡ (unauthorized, app)
  unfolding request
  refused keys h route app e = rw e refl

  reads_only :
      (route : Route J) (app : App R Mo V) → is_keyed route ≡ false → (respond py route app).1 ≡ app
  unfolding respond
  reads_only pause_all app e = absurd (ground (arith, e))
  reads_only resume_all app e = absurd (ground (arith, e))
  reads_only emergency_stop app e = absurd (ground (arith, e))
  reads_only (pause_exchange name) app e = absurd (ground (arith, e))
  reads_only (resume_exchange name) app e = absurd (ground (arith, e))
  reads_only (update_config body) app e = absurd (ground (arith, e))
  reads_only (update_exchange_config name body) app e = absurd (ground (arith, e))
  reads_only (get_exchange_status name) app e = ground arith

  -- Without the key of the settings, if that is set, every route that changes something is refused
  -- with 401 and changes nothing, whatever the key of the environment, the exchange and the body; and
  -- no route at all changes anything.
  pub request_without_key :
      (keys : Keys) (h : Headers) (key : String)
      → keys.api_key ≡ some key
      → key ≢ ""
      → h.x_api_key ≢ some key
      → (name : String) (body : J) (route : Route J) (app : App R Mo V)
      → All (λ r. request py keys h r app ≡ (unauthorized, app)) (control_routes name)
        × All (λ r. request py keys h r app ≡ (unauthorized, app)) (config_routes name body)
        × ((request py keys h route app).1 ≡ app)
  unfolding request
  request_without_key keys h key i k n name body route app =
      let closed : (r : Route J)
          → is_keyed r ≡ true
          → request py keys h r app ≡ (unauthorized, app) =
        λ r c. refused keys h r app (unkeyed keys h r key i k n c) in
      (
        (
          closed pause_all refl,
          (
            closed resume_all refl,
            (
              closed emergency_stop refl,
              (closed (pause_exchange name) refl, (closed (resume_exchange name) refl, tt)),
            ),
          ),
        ),
        (closed (update_config body) refl, (closed (update_exchange_config name body) refl, tt)),
        elim (Bool-cases (is_keyed route)) [
          | inl c ↦ ap (λ r. r.1) (closed route c)
          | inr c ↦ ground (arith, reads_only route app c)
        ],
      )

  -- How a change of the configuration ends, with the index of the section, if one is asked for, and
  -- what pydantic makes of the body.
  abbrev pub Ends : Option (BotConfig R) → App R Mo V → Status × App R Mo V → Type 0
  Ends none app r = r ≡ (unprocessable, app)
  Ends (some config) app r = Finishes py.saves py.emits config app r

  abbrev pub EndsAt : Option ℕ → J → App R Mo V → Status × App R Mo V → Type 0
  EndsAt none body app r = r ≡ (not_found, app)
  EndsAt (some i) body app r = Ends (py.validate (py.updated app.config i body)) app r
