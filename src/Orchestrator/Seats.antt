-- ===== src/Orchestrator/Seats.antt =====
-- Which exchanges the orchestrator can start with, and what their bots are made with.
use mmp_meridian.Prelude.{
  ◌≡◌, refl, sym, ap, ◌∙◌, Bool, true, false, not, ◌||◌, Option, none, some, String, List, [], ◌∷◌,
  All, any, str_eq, str_eq_iff, if◌then◌else◌, Option-cases, Bool-cases, inl, inr, by_test, arith,
}
use mathlib.Core.Path.{subst}
use mmp_meridian.Prelude.Dict.{Dict, insert, contains, contains-insert}
use mmp_meridian.Float.{Float}
use mmp_meridian.Config.{BotConfig, ExchangeBotConfig, enabled_exchanges}
use mmp_meridian.Factory.{
  Build, Connector, ccxt_ws, name_of, ccxt_name_map, ccxt_named, create_connector,
  create_connector_lem, create_ws_connector,
}
use mmp_meridian.Regime.Observation.{Model}
use mmp_meridian.Regime.Master.{Queue, GlobalState}
use mmp_meridian.Orchestrator.Start.{
  Secrets, Credentials, credentials_for, Seat, Wiring, seat_of, seated, seat_one, seat_all, start,
}

-- The exchanges with credentials.
abbrev pub is_known : String → Bool
is_known n = str_eq n "kucoin" || str_eq n "gate" || str_eq n "mexc" || str_eq n "kraken"

known_named : (n : String) → is_known n ≡ true → contains n ccxt_name_map ≡ true
unfolding ccxt_name_map
known_named n h = ground (
  arith,
  h,
  str_eq_iff n "kucoin",
  str_eq_iff "kucoin" n,
  str_eq_iff n "gate",
  str_eq_iff "gate" n,
  str_eq_iff n "mexc",
  str_eq_iff "mexc" n,
  str_eq_iff n "kraken",
  str_eq_iff "kraken" n,
)

unknown_refused : (s : Secrets) (n : String) → is_known n ≡ false → credentials_for s n ≡ none
unfolding credentials_for
unknown_refused s n h = ground (arith, h)

known_credentials :
    (s : Secrets) (n : String)
    → is_known n ≡ true
    → (c : Credentials) × (credentials_for s n ≡ some c)
unfolding credentials_for
known_credentials s n h = elim (Option-cases (credentials_for s n)) [
  | inl e ↦ absurd (ground (arith, h, e))
  | inr (c, e) ↦ (c, e)
]

known_connector :
    (b : Build) (n : String) (use_cpp : Option Bool)
    → is_known n ≡ true
    → (c : Connector) × (create_connector b n false use_cpp ≡ some c) × (name_of c ≡ n)
known_connector b n use_cpp h =
    let (refused, taken, third) = create_connector_lem b n false use_cpp in
    elim (Option-cases (create_connector b n false use_cpp)) [
      | inl e ↦ absurd (ground (arith, refused e, known_named n h))
      | inr (c, e) ↦ (c, e, (third c e).0)
    ]

known_ws : (n : String) → is_known n ≡ true → create_ws_connector n ≡ some (ccxt_ws n)
unfolding create_ws_connector
known_ws n h = rw (create_ws_connector, ccxt_named n, known_named n h) refl

if_or : (b c : Bool) → (if b then true else c) ≡ (b || c)
if_or true c = refl
if_or false c = refl

or_false : (b : Bool) → (b || false) ≡ b
or_false true = refl
or_false false = refl

insert-All :
    {V : Type 0} (P : String × V → Type 0) (k : String) (v : V) (d : Dict V)
    → P (k, v)
    → All P d
    → All P (insert k v d)
insert-All P k v [] p ps = (p, tt)
insert-All P k v ((j, w) ∷ d) p (q, qs) =
    by_test (All P) (str_eq j k) ((j, v) ∷ d) ((j, w) ∷ insert k v d)
      (λ e. (subst (λ i. P (i, v)) (sym ((str_eq_iff j k).0 e)) p, qs))
      (λ _. (q, insert-All P k v d p qs))

module _ {R : Type 0} where
  -- A seat is for the exchange that it stands under, live only outside a dry run, and in a dry run with
  -- a paper trader.
  abbrev pub IsSeated : BotConfig R → String × Seat R → Type 0
  IsSeated config (name, s) =
      (s.config.exchange ≡ name)
      × (name_of s.connector ≡ name)
      × (s.paper_trader ≡ (if config.dry_run then some (ccxt_ws name) else none))
      × (s.live_mode ≡ true → config.dry_run ≡ false)

  -- All seats are as they should be, and have a queue of states each.
  pub record IsWired {Mo V : Type 0} (config : BotConfig R) (w : Wiring R Mo V) : Type 0 where
    pub seats_lem : All (IsSeated config) w.seats
    pub queues_lem : (n : String) → contains n w.orchestrator.bot_queues ≡ contains n w.seats

  abbrev pub is_named : String → List (ExchangeBotConfig R) → Bool
  is_named n exchanges = any (λ ex. str_eq ex.exchange n) exchanges

module _ {R : Type 0} ⦃f : Float R⦄ {Mo V : Type 0} (model : Model R V) (secrets : Secrets)
    (build : Build) (live_mode : Bool) (config : BotConfig R) where
  seat_one_lem :
      (ex : ExchangeBotConfig R) (w : Wiring R Mo V)
      → is_known ex.exchange ≡ true
      → IsWired config w
      → (w' : Wiring R Mo V) × (seat_one model secrets build live_mode config ex w ≡ some w')
        × IsWired config w'
        × ((n : String) → contains n w'.seats ≡ (str_eq ex.exchange n || contains n w.seats))
  unfolding seat_one
  seat_one_lem ex w h i =
      let (creds, e) = known_credentials secrets ex.exchange h in
      let (c, e', named) = known_connector build ex.exchange ex.use_cpp_connector h in
      let q : Queue (GlobalState R) = record { maxsize = 5; items = [] } in
      let seat = seat_of live_mode config ex creds c w.made in
      let paper : (seat_of live_mode config ex creds c w.made).paper_trader
          ≡ (if config.dry_run then some (ccxt_ws ex.exchange) else none) =
        ground (arith, known_ws ex.exchange h) in
      (
        seated model secrets build live_mode config ex creds c w,
        rw (e, e') refl,
        record {
          seats_lem =
              insert-All (IsSeated config) ex.exchange seat w.seats
                (refl, named, paper, λ e. ground (arith, e)) i.seats_lem;
          queues_lem = λ n.
              contains-insert ex.exchange n q w.orchestrator.bot_queues
              ∙ ap (λ z. if str_eq ex.exchange n then true else z) (i.queues_lem n)
              ∙ sym (contains-insert ex.exchange n seat w.seats);
        },
        λ n.
            contains-insert ex.exchange n seat w.seats
            ∙ if_or (str_eq ex.exchange n) (contains n w.seats),
      )

  all_seated :
      (exchanges : List (ExchangeBotConfig R)) (w : Wiring R Mo V)
      → All (λ ex. is_known ex.exchange ≡ true) exchanges
      → IsWired config w
      → (w' : Wiring R Mo V) × (seat_all model secrets build live_mode config exchanges w ≡ some w')
        × IsWired config w'
        × ((n : String) → contains n w'.seats ≡ (is_named n exchanges || contains n w.seats))
  unfolding seat_all
  all_seated [] w h i = (w, refl, i, λ n. refl)
  all_seated (ex ∷ exchanges) w (h, hs) i =
      let (v, e, j, c) = seat_one_lem ex w h i in
      let (v', e', j', c') = all_seated exchanges v hs j in
      (v', rw (e, e') refl, j', λ n. ground (arith, c n, c' n))

  one_refused :
      (exchanges : List (ExchangeBotConfig R)) (w : Wiring R Mo V)
      → any (λ ex. not (is_known ex.exchange)) exchanges ≡ true
      → seat_all model secrets build live_mode config exchanges w ≡ none
  unfolding seat_all
  one_refused [] w h = absurd (ground (arith, h))
  one_refused (ex ∷ exchanges) w h = elim (Bool-cases (is_known ex.exchange)) [
    | inl e ↦ elim (Option-cases (seat_one model secrets build live_mode config ex w)) [
      | inl e' ↦ rw e' refl
      | inr (v, e') ↦ rw e' (one_refused exchanges v (ground (arith, h, e)))
    ]
    | inr e ↦ rw (seat_one, unknown_refused secrets ex.exchange e) refl
  ]

  -- From an orchestrator without bots, if every enabled exchange is one of the four that have
  -- credentials, the start gets past its exchanges, and the seats are exactly those of the enabled
  -- exchanges: each is for its exchange, has a queue of states, is live only outside a dry run, and
  -- has a paper trader exactly in one.
  pub start-IsWired :
      (w : Wiring R Mo V)
      → (w.seats ≡ [])
      → (w.orchestrator.bot_queues ≡ [])
      → All (λ ex. is_known ex.exchange ≡ true) (enabled_exchanges config)
      → (w' : Wiring R Mo V) × (start model secrets build live_mode config w ≡ some w')
        × IsWired config w'
        × ((n : String) → contains n w'.seats ≡ is_named n (enabled_exchanges config))
  unfolding start
  start-IsWired w h h' k =
      let (w', e, i, c) =
        all_seated (enabled_exchanges config) w k
          (record { seats_lem = rw h tt; queues_lem = λ n. rw (h, h') refl }) in
      (w', e, i, λ n. c n ∙ rw h (or_false (is_named n (enabled_exchanges config))))

  -- If an enabled exchange has no credentials, such as binance, the start raises, whatever was built.
  pub start_refused :
      (w : Wiring R Mo V)
      → any (λ ex. not (is_known ex.exchange)) (enabled_exchanges config) ≡ true
      → start model secrets build live_mode config w ≡ none
  unfolding start
  start_refused w k = one_refused (enabled_exchanges config) w k
