-- ===== src/Quant/Tests.antt =====
-- The aggressiveness model, the detector and the volatility engine on concrete inputs.
use mmp_meridian.Prelude.{◌≡◌, refl, [], ◌∷◌, arith}
use mmp_meridian.Prelude.Int.{ℤ}
use mmp_meridian.Float.{◌≼◌}
use mmp_meridian.Float.Fixed.{fixed, fixed-IsOrdered}
use mmp_meridian.Samples.{micro, below, hmm, volatility}
use mmp_meridian.Samples.Market.{sure}
use mmp_meridian.Config.{HmmConfig}
use mmp_meridian.Quant.Aggressiveness.{
  compute_with_hmm_regime, high_vol_crash, recovery, trending_up, trending_down, normal,
}
use mmp_meridian.Quant.Detector
use mmp_meridian.Quant.Detector.{
  Observation, Library, fresh, is_ready, update, classify, decode_regime, fallback_decode,
}
use mmp_meridian.Quant.Readiness.{run_silent}
use mmp_meridian.Quant.Overlay.{InUnit, compute_with_hmm_regime-InUnit, crash_floor}

compute_with_hmm_regime-InUnit_example :
    InUnit volatility fixed-IsOrdered
      (compute_with_hmm_regime volatility (micro 40_000) trending_up recovery (micro 300_000))
compute_with_hmm_regime-InUnit_example =
    compute_with_hmm_regime-InUnit volatility fixed-IsOrdered (micro 40_000) trending_up recovery
      (micro 300_000)

crash_floor_example :
    let (buy_agg, sell_agg) =
      compute_with_hmm_regime volatility
        (micro 90_000)
        trending_down
        high_vol_crash
        (micro 800_000) in
    (micro 600_000 ≼ buy_agg) × (sell_agg ≼ micro 100_000)
crash_floor_example =
    crash_floor volatility fixed-IsOrdered (micro 90_000) trending_down (micro 800_000) refl refl
      refl refl

abbrev crash : Observation ℤ
crash = record {
  zz_vol = micro 8_000;
  net_direction = below 5_000;
  volume_change = micro 800_000;
  price_roc = below 8_000;
}

abbrev lost : HmmConfig ℤ
lost = record hmm { hmm_lookback = 10; hmm_min_observations = 30 }

run_silent_example :
    let d = Detector.run sure lost (crash ∷ crash ∷ []) (fresh sure) in
    (d.current_regime ≡ normal) × (d.confidence ≡ micro 0)
run_silent_example = run_silent sure lost (crash ∷ crash ∷ []) (omega arith)
