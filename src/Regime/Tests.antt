-- ===== src/Regime/Tests.antt =====
-- The regime detector and the regime master on concrete inputs.
use mmp_meridian.Prelude.{ℕ, ◌≡◌, ◌≤◌, refl, none, List, [], ◌∷◌, All, length, arith}
use mmp_meridian.Prelude.Int.{ℤ}
use mmp_meridian.Float.Fixed.{fixed, fixed-IsOrdered}
use mmp_meridian.Samples.{micro}
use mmp_meridian.Quant.Aggressiveness.{choppy, normal}
use mmp_meridian.Regime.Observation.{Regime, ranging, trending, Model}
use mmp_meridian.Regime.Parameters.{mm_parameters}
use mmp_meridian.Regime.Master.{
  GlobalState, Event, pushed, turn, subscribed, received, run, fresh_master,
}
use mmp_meridian.Regime.Encoding.{encode_observation_injective}
use mmp_meridian.Regime.Reconcile.{IsCautious, Serves, run-bounded}

-- A detector whose belief is a regime: it turns to a trend at an observation above 100.
abbrev model : Model ℤ Regime
model = record {
  pi = ranging;
  weigh = λ b n. trending;
  sum = λ b. micro 1_000_000;
  over = λ b d. b;
  argmax = λ b. b;
  greatest = λ b. micro 900_000;
  tiny = micro 0;
}

abbrev tick : GlobalState ℤ
tick = record {
  global_mid = micro 25_000;
  volatility = micro 30_000;
  aggressiveness = micro 500_000;
  zz_vol = micro 1_000;
  zz_regime = choppy;
  hmm_regime = normal;
  hmm_regime_confidence = micro 0;
  timestamp = micro 5;
  contributing_exchanges = "kucoin" ∷ [];
  regime_state = none;
}

abbrev events : List (Event ℤ)
events =
    subscribed 1 (record { maxsize = 1; items = [] })
    ∷ pushed tick
    ∷ turn
    ∷ received 1
    ∷ pushed tick
    ∷ turn
    ∷ []

encode_observation_injective_example :
    (◌≡◌ {A = ℕ} 1 1)
    × (◌≡◌ {A = ℕ} 2 2)
    × (◌≡◌ {A = ℕ} 0 0)
    × (◌≡◌ {A = ℕ} 1 1)
    × (◌≡◌ {A = ℕ} 3 3)
encode_observation_injective_example =
    encode_observation_injective {pv = 1} {bas = 2} {obi = 0} {fr = 1} {pcr = 3} {pv' = 1}
      {bas' = 2} {obi' = 0} {fr' = 1} {pcr' = 3} (omega arith) (omega arith) (omega arith)
      (omega arith) (omega arith) (omega arith) (omega arith) (omega arith) refl

run-bounded_example :
    let m = run model events (fresh_master model) in
    (length m.pending_queue.items ≤ 10)
    × All Serves m.subscriber_queues
    × IsCautious m.current.mm_params (mm_parameters m.current.regime)
run-bounded_example =
    run-bounded model fixed-IsOrdered events ((omega arith, tt), (tt, (tt, (tt, (tt, (tt, tt))))))
