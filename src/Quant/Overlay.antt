-- ===== src/Quant/Overlay.antt =====
-- What the overlay of the detector's regime on the aggressiveness promises.
use mathlib.Core.Path.{subst, ap₂}
use mmp_meridian.Prelude.{◌≡◌, refl, sym, ap, ◌∙◌, false}
use mmp_meridian.Float.{Float, ◌≼◌, IsOrdered, IsMonotone, nought, unity, max, min}
use mmp_meridian.Float.Order.{le-max_right, min-le_right, max_le}
use mmp_meridian.MathUtils.{clip, clip_mono, clip_inside}
use mmp_meridian.Config.{VolatilityConfig}
use mmp_meridian.Quant.Aggressiveness.{
  ZzRegime, trending_up, trending_down, choppy, HmmRegime, normal, high_vol_crash, compute,
  compute_with_regime, adjusted, blended, compute_with_hmm_regime, clip_unit, compute_bounds,
}

module _ {R : Type 0} ⦃f : Float R⦄ (cfg : VolatilityConfig R) (o : IsOrdered R) where
  open f use {lt, le, mul, div, sub, add, decimal}

  abbrev pub InUnit : R × R → Type 0
  InUnit a = (nought ≼ a.0) × (a.0 ≼ unity) × (nought ≼ a.1) × (a.1 ≼ unity)

  -- With the Zhang-Zhang regime alone both sides lie in [0, 1].
  compute_with_regime-InUnit : (vol : R) (zz : ZzRegime) → InUnit (compute_with_regime cfg vol zz)
  unfolding compute_with_regime
  compute_with_regime-InUnit vol trending_up =
      let base = compute cfg vol in
      let (a, b) = clip_unit cfg o (mul base (decimal 8 1)) in
      let (c, d) = clip_unit cfg o (mul base (decimal 11 1)) in (a, b, c, d)
  compute_with_regime-InUnit vol trending_down =
      let base = compute cfg vol in
      let (a, b) = clip_unit cfg o (mul base (decimal 11 1)) in
      let (c, d) = clip_unit cfg o (mul base (decimal 8 1)) in (a, b, c, d)
  compute_with_regime-InUnit vol choppy = let (a, b) = compute_bounds cfg o vol in (a, b, a, b)

  -- On ordered numbers, whatever the volatility, the two regimes and the confidence are, the buy
  -- and the sell aggressiveness lie between 0 and 1.
  pub compute_with_hmm_regime-InUnit :
      (vol : R) (zz : ZzRegime) (hmm : HmmRegime) (confidence : R)
      → InUnit (compute_with_hmm_regime cfg vol zz hmm confidence)
  unfolding compute_with_hmm_regime
  compute_with_hmm_regime-InUnit vol zz normal confidence = compute_with_regime-InUnit vol zz
  compute_with_hmm_regime-InUnit vol zz hmm confidence =
      let (zz_buy, zz_sell) = compute_with_regime cfg vol zz in
      let (buy_agg, sell_agg) = adjusted cfg hmm zz_buy zz_sell in
      let (a, b) = clip_unit cfg o (blended cfg confidence zz_buy buy_agg) in
      let (c, d) = clip_unit cfg o (blended cfg confidence zz_sell sell_agg) in (a, b, c, d)

  blended_sure :
      (confidence zz adjusted : R)
      → lt confidence (decimal 5 1) ≡ false
      → blended cfg confidence zz adjusted ≡ adjusted
  unfolding blended
  blended_sure confidence zz adjusted sure = rw sure

  blended-nought : (m : IsMonotone R) (zz adjusted : R) → blended cfg nought zz adjusted ≡ zz
  unfolding blended
  blended-nought m zz adjusted =
      let half_pos = o.decimal_pos 4 1 refl in
      rw half_pos (
        ap (λ x. add zz (mul x (sub adjusted zz))) (m.zero-div (decimal 5 1) half_pos)
        ∙ ap (add zz) (m.zero-mul (sub adjusted zz))
        ∙ m.add-zero zz)

  le-clip_max :
      (z floor : R) → nought ≼ floor → floor ≼ unity → floor ≼ clip (max z floor) nought unity
  le-clip_max z floor h k =
      subst (λ x. x ≼ clip (max z floor) nought unity) (clip_inside o floor nought unity h k)
        (clip_mono o floor (max z floor) nought unity (le-max_right o z floor))

  clip_min-le : (z ceiling : R) → nought ≼ ceiling → clip (min z ceiling) nought unity ≼ ceiling
  unfolding clip
  clip_min-le z ceiling h =
      max_le o nought (min unity (min z ceiling)) ceiling h
        (o.le_trans _ _ _ (min-le_right o unity (min z ceiling)) (min-le_right o z ceiling))

  -- On ordered numbers, in a crash that the detector is sure of, by 0.5 or more, the buy side is
  -- at least as aggressive as the configured floor, and the sell side at most as the configured
  -- ceiling, for every volatility and every Zhang-Zhang regime, if the floor lies in [0, 1] and
  -- the ceiling is not negative.
  pub crash_floor :
      (vol : R) (zz : ZzRegime) (confidence : R)
      → lt confidence (decimal 5 1) ≡ false
      → cfg.hmm.crash_buy_agg_floor ≼ unity
      → nought ≼ cfg.hmm.crash_buy_agg_floor
      → nought ≼ cfg.hmm.crash_sell_agg_ceiling
      → let (buy_agg, sell_agg) = compute_with_hmm_regime cfg vol zz high_vol_crash confidence in
        (cfg.hmm.crash_buy_agg_floor ≼ buy_agg) × (sell_agg ≼ cfg.hmm.crash_sell_agg_ceiling)
  unfolding compute_with_hmm_regime
  crash_floor vol zz confidence sure le_one nonneg ceil =
      let (zz_buy, zz_sell) = compute_with_regime cfg vol zz in
      let floor = cfg.hmm.crash_buy_agg_floor in
      let ceiling = cfg.hmm.crash_sell_agg_ceiling in
      (
        subst (λ x. floor ≼ clip x nought unity) (sym (blended_sure confidence zz_buy _ sure))
            (le-clip_max zz_buy floor nonneg le_one),
        subst (λ x. clip x nought unity ≼ ceiling) (sym (blended_sure confidence zz_sell _ sure))
            (clip_min-le zz_sell ceiling ceil),
      )

  -- On an ordered, monotone arithmetic, at a confidence of 0 the crash floor has no effect: both
  -- sides are as for the Zhang-Zhang regime alone.
  crash_unsure :
      (m : IsMonotone R) (vol : R) (zz : ZzRegime)
      → compute_with_hmm_regime cfg vol zz high_vol_crash nought ≡ compute_with_regime cfg vol zz
  unfolding compute_with_hmm_regime
  crash_unsure m vol zz =
      let (a, b, c, d) = compute_with_regime-InUnit vol zz in
      let (zz_buy, zz_sell) = compute_with_regime cfg vol zz in
      ap₂ (λ x y. (x, y))
        (ap (λ x. clip x nought unity) (blended-nought m zz_buy _)
          ∙ clip_inside o zz_buy nought unity a b)
        (ap (λ x. clip x nought unity) (blended-nought m zz_sell _)
          ∙ clip_inside o zz_sell nought unity c d)
