-- ===== src/Quant/Aggressiveness.antt =====
-- quant/aggressiveness.py: `AggressivenessModel`, from volatility to aggressiveness.
use mmp_meridian.Prelude.{◌≡◌, refl, Bool, true, false, if◌then◌else◌, arith}
use mmp_meridian.Float.{Float, ◌≼◌, IsOrdered, IsMonotone, IsPower, nought, unity, max, min}
use mmp_meridian.Float.Signs.{sub_nonneg, div_nonneg}
use mmp_meridian.MathUtils.{clip, le-clip, clip-le, clip_mono}
use mmp_meridian.Config.{VolatilityConfig}

-- The regimes of the Zhang-Zhang estimator.
pub data ZzRegime : Type 0 where
  trending_up trending_down choppy : ZzRegime

-- The regimes of the Gaussian detector that the orchestrator runs.
pub data HmmRegime : Type 0 where
  normal low_vol high_vol high_vol_crash recovery : HmmRegime

abbrev pub is_crash : HmmRegime → Bool
is_crash high_vol_crash = true
is_crash normal = false
is_crash low_vol = false
is_crash high_vol = false
is_crash recovery = false

module _ {R : Type 0} ⦃f : Float R⦄ (cfg : VolatilityConfig R) where
  open f use {add, sub, mul, div, lt, le, pow, decimal}

  abbrev curve : R → R
  curve vol =
      let normalised = div (sub vol cfg.low_threshold) (sub cfg.high_threshold cfg.low_threshold) in
      sub unity (pow normalised cfg.power)

  unfoldable pub compute : R → R
  compute vol =
      if le vol cfg.low_threshold
      then unity
      else if le cfg.high_threshold vol
      then nought
      else clip (curve vol) nought unity

  abbrev unit_clip : R → R
  unit_clip v = clip v nought unity

  -- Buy and sell aggressiveness.
  unfoldable pub compute_with_regime : R → ZzRegime → R × R
  unfolding compute
  compute_with_regime vol trending_up =
      let base = compute vol in
      (unit_clip (mul base (decimal 8 1)), unit_clip (mul base (decimal 11 1)))
  compute_with_regime vol trending_down =
      let base = compute vol in
      (unit_clip (mul base (decimal 11 1)), unit_clip (mul base (decimal 8 1)))
  compute_with_regime vol choppy = let base = compute vol in (base, base)

  -- Below a confidence of 0.5 the adjusted value is drawn back to the Zhang-Zhang one.
  unfoldable pub blended : R → R → R → R
  blended confidence zz adjusted =
      if lt confidence (decimal 5 1)
      then add zz (mul (div confidence (decimal 5 1)) (sub adjusted zz))
      else adjusted

  unfoldable pub adjusted : HmmRegime → R → R → R × R
  adjusted normal zz_buy zz_sell = (zz_buy, zz_sell)
  adjusted low_vol zz_buy zz_sell = (mul zz_buy (decimal 11 1), mul zz_sell (decimal 11 1))
  adjusted high_vol zz_buy zz_sell = (mul zz_buy (decimal 7 1), mul zz_sell (decimal 6 1))
  adjusted high_vol_crash zz_buy zz_sell =
      (max zz_buy cfg.hmm.crash_buy_agg_floor, min zz_sell cfg.hmm.crash_sell_agg_ceiling)
  adjusted recovery zz_buy zz_sell =
      (mul zz_buy cfg.hmm.recovery_buy_agg_boost, mul zz_sell cfg.hmm.recovery_sell_agg_dampen)

  abbrev pub is_normal : HmmRegime → Bool
  is_normal normal = true
  is_normal low_vol = false
  is_normal high_vol = false
  is_normal high_vol_crash = false
  is_normal recovery = false

  unfoldable pub compute_with_hmm_regime : R → ZzRegime → HmmRegime → R → R × R
  unfolding compute_with_regime adjusted blended
  compute_with_hmm_regime vol zz_regime hmm_regime hmm_confidence =
      let (zz_buy, zz_sell) = compute_with_regime vol zz_regime in
      let (buy_agg, sell_agg) = adjusted hmm_regime zz_buy zz_sell in
      if is_normal hmm_regime then (zz_buy, zz_sell) else (
        unit_clip (blended hmm_confidence zz_buy buy_agg),
        unit_clip (blended hmm_confidence zz_sell sell_agg),
      )

  module _ (o : IsOrdered R) where
    pub clip_unit : (v : R) → (nought ≼ unit_clip v) × (unit_clip v ≼ unity)
    clip_unit v = (le-clip o v nought unity, clip-le o v nought unity (o.decimal_le 0 0 1 0 refl))

    pub compute_bounds : (vol : R) → (nought ≼ compute vol) × (compute vol ≼ unity)
    unfolding compute
    compute_bounds vol =
        ground (
          arith,
          clip_unit (curve vol),
          o.le_refl unity,
          o.le_refl nought,
          o.decimal_le 0 0 1 0 refl,
        )

    module _ (m : IsMonotone R) (p : IsPower R) where
      curve_antitone :
          (v w : R)
          → lt cfg.low_threshold cfg.high_threshold ≡ true
          → cfg.low_threshold ≼ v
          → v ≼ w
          → curve w ≼ curve v
      curve_antitone v w window above h =
          let width = sub cfg.high_threshold cfg.low_threshold in
          let width_pos : lt nought width ≡ true = p.sub_pos _ _ window in
          m.sub_mono unity unity _ _ (o.le_refl unity) (
            p.pow_mono _ _ cfg.power
              (div_nonneg o m _ width (sub_nonneg o m v cfg.low_threshold above) width_pos)
              (m.div_mono _ _ width width_pos (m.sub_mono _ _ _ _ h (o.le_refl cfg.low_threshold))))

      -- On an ordered, monotone arithmetic with monotone powers a higher volatility never makes
      -- the model more aggressive, if the thresholds are ordered.
      compute_antitone :
          (v w : R) → lt cfg.low_threshold cfg.high_threshold ≡ true → v ≼ w → compute w ≼ compute v
      unfolding compute
      compute_antitone v w window h = ground (
        arith,
        clip_unit (curve v),
        clip_unit (curve w),
        o.le_refl unity,
        o.le_refl nought,
        o.decimal_le 0 0 1 0 refl,
        o.le_trans v w cfg.low_threshold h,
        o.le_trans cfg.high_threshold v w,
        o.le_total v cfg.low_threshold,
        curve_antitone v w window,
        clip_mono o (curve w) (curve v) nought unity,
      )
