-- ===== src/Orchestrator/States.antt =====
-- The states that the price loop broadcasts.
use mathlib.Core.Path.{subst}
use mmp_meridian.Prelude.{
  ◌≡◌, ◌≢◌, refl, sym, true, false, Option, none, some, String, List, [], ◌∷◌, by_test, arith,
}
use mmp_meridian.Prelude.Dict.{Dict, keys}
use mmp_meridian.Float.{Float, ◌≼◌, IsOrdered, nought, unity}
use mmp_meridian.Float.Order.{lt_of_not-le}
use mmp_meridian.Quant.Aggressiveness.{HmmRegime, normal, compute_bounds}
use mmp_meridian.Quant.Detector.{Observation, HmmRegimeDetector}
use mmp_meridian.Quant.Readiness.{HasProbabilities, update-InUnit}
use mmp_meridian.Quant.Volatility.{VolatilityEngine, zhang_zhang_vol, rolling_vol, hmm_features}
use mmp_meridian.Quant.Estimates.{IsStatistics, zhang_zhang_vol-IsEstimate}
use mmp_meridian.Regime.Observation.{Model}
use mmp_meridian.Regime.Master.{GlobalState}
use mmp_meridian.Orchestrator.Distribution.{IsPublished, publish-IsPublished}
use mmp_meridian.Orchestrator.{
  Outcome, no_valid_tickers, invalid_global_mid, distributed, Orchestrator, Models, Answers,
  valid_prices, as_dict, global_mid, feed_engine, detect, run_detector, global_state, publish,
  distribute, tick_prices,
}

module _ {R : Type 0} ⦃f : Float R⦄ where
  abbrev InUnit : R → Type 0
  InUnit a = (nought ≼ a) × (a ≼ unity)

  -- The confidence of the detector, if there is one, is a probability.
  abbrev IsSure : {Mo : Type 0} → Option (HmmRegimeDetector R Mo) → Type 0
  IsSure none = Unit
  IsSure (some d) = InUnit d.confidence

  -- What every state promises the bots.
  abbrev pub IsSound : GlobalState R → Type 0
  IsSound s =
      (f.lt nought s.global_mid ≡ true)
      × (nought ≼ s.zz_vol)
      × InUnit s.aggressiveness
      × InUnit s.hmm_regime_confidence

module _ {R Mo V : Type 0} ⦃f : Float R⦄ (models : Models R Mo) (master : Model R V)
    (o : IsOrdered R) (h : HasProbabilities models.library models.volatility.hmm) where
  detect-IsSure :
      (d : HmmRegimeDetector R Mo) (found : Option (Observation R))
      → InUnit d.confidence
      → let ((regime, c), d') = detect models master d found in InUnit c × InUnit d'.confidence
  detect-IsSure d none i = ((o.le_refl nought, o.decimal_le 0 0 1 0 refl), i)
  detect-IsSure d (some obs) i =
      let u = update-InUnit models.library models.volatility.hmm o h obs d i in (u, u)

  abbrev Sure : (HmmRegime × R) × Orchestrator R Mo V → Type 0
  Sure ((regime, c), t) = InUnit c × IsSure t.hmm_detector

  step-Sure :
      (det : Option (HmmRegimeDetector R Mo)) (found : Option (Observation R))
      (e : VolatilityEngine R) (t : Orchestrator R Mo V)
      → IsSure det
      → IsSure t.hmm_detector
      → Sure (elim det [
        | none ↦ ((normal, nought), t)
        | some d ↦
            let (answer, d') = detect models master d found in
            (answer, record t { vol_engine = e; hmm_detector = some d' })
      ])
  step-Sure none found e t i j = ((o.le_refl nought, o.decimal_le 0 0 1 0 refl), j)
  step-Sure (some d) found e t i j = detect-IsSure d found i

  run_detector-IsSure :
      (t : Orchestrator R Mo V) → IsSure t.hmm_detector → Sure (run_detector models master t)
  unfolding run_detector
  run_detector-IsSure t i =
      let (found, e) = hmm_features models.numerics models.volatility t.vol_engine in
      step-Sure t.hmm_detector found e t i i

  feed_engine-hmm_detector :
      (mid : R) (a : Answers R) (t : Orchestrator R Mo V)
      → (feed_engine models master mid a t).hmm_detector ≡ t.hmm_detector
  unfolding feed_engine
  feed_engine-hmm_detector mid a t = ground arith

  module _ (n : IsStatistics R models.numerics) where
    global_state-IsSound :
        (mid : R) (names : List String) (a : Answers R) (t : Orchestrator R Mo V)
        → f.le mid nought ≡ false
        → IsSure t.hmm_detector
        → let (s, t') = global_state models master mid names a t in
          IsSound s × IsSure t'.hmm_detector
    unfolding global_state
    global_state-IsSound mid names a t k i =
        let fed = feed_engine models master mid a t in
        let (answer, e) = zhang_zhang_vol models.numerics models.volatility fed.vol_engine in
        let vol = rolling_vol models.numerics fed.vol_engine in
        let estimate =
          zhang_zhang_vol-IsEstimate models.volatility o models.numerics n fed.vol_engine in
        let (sure, still) =
          run_detector-IsSure (record fed { vol_engine = e })
            (subst IsSure (sym (feed_engine-hmm_detector mid a t)) i) in
        (
          (
            lt_of_not-le o mid nought k,
            estimate.nonneg,
            compute_bounds models.volatility o vol,
            sure,
          ),
          still,
        )

    -- What a tick says of the orchestrator that it leaves.
    abbrev pub IsTold : Orchestrator R Mo V → Outcome × Orchestrator R Mo V → Type 0
    IsTold t r =
        (r.0 ≢ distributed → r.1 ≡ t)
        × (r.0 ≡ distributed → (s : GlobalState R) × IsPublished models master s t r.1 × IsSound s)
        × IsSure r.1.hmm_detector

    distribute-IsTold :
        (valid : Dict R) (mid : Option R) (a : Answers R) (t : Orchestrator R Mo V)
        → IsSure t.hmm_detector
        → IsTold t (distribute models master valid mid a t)
    unfolding distribute
    distribute-IsTold valid none a t i = (λ k. refl, λ k. absurd (ground arith), i)
    distribute-IsTold valid (some mid) a t i =
        let told = global_state models master mid (keys valid) a t in
        by_test (IsTold t) (f.le mid nought) (invalid_global_mid, t)
          (distributed, publish models master told)
          (λ e. (λ k. refl, λ k. absurd (ground arith), i))
          (λ e.
            let (sound, sure) = global_state-IsSound mid (keys valid) a t e i in
            (
              λ k. absurd (k refl),
              λ k. (told.0, publish-IsPublished models master mid (keys valid) a t, sound),
              sure,
            ))

    answered-IsTold :
        (valid : Dict R) (t : Orchestrator R Mo V) (answered : Outcome × Orchestrator R Mo V)
        → IsSure t.hmm_detector
        → IsTold t answered
        → IsTold t (elim valid [ [] ↦ (no_valid_tickers, t) | _ ∷ _ ↦ answered ])
    answered-IsTold [] t answered i k = (λ k. refl, λ k. absurd (ground arith), i)
    answered-IsTold (v ∷ valid) t answered i k = k

    -- On ordered numbers, with roots that are not negative and posteriors that are probabilities, if
    -- the confidence of the detector is one: a tick that ends early, without a ticker, without a
    -- weight, or with a mid-price that is not positive, changes nothing. Any other tick keeps a state
    -- and appends this same state to the pending queue of the regime master and to the queue of
    -- every bot, unless the queue is full; the state has a positive mid-price, a Zhang-Zhang
    -- volatility that is not negative, and an aggressiveness and a confidence in [0, 1]. The
    -- confidence of the detector is a probability again.
    pub tick_prices-IsTold :
        (a : Answers R) (t : Orchestrator R Mo V)
        → IsSure t.hmm_detector
        → IsTold t (tick_prices models master a t)
    unfolding tick_prices
    tick_prices-IsTold a t i =
        let valid = valid_prices a.tickers in
        let mid = global_mid (as_dict t.weights) valid in
        answered-IsTold valid t (distribute models master valid mid a t) i
          (distribute-IsTold valid mid a t i)
