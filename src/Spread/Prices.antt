-- ===== src/Spread/Prices.antt =====
-- The prices of the levels.
use mmp_meridian.Prelude.{ℕ, ◌≡◌, true, List, All, All-map, refl, ap, ◌∙◌, arith}
use mathlib.Core.Path.{subst}
use mmp_meridian.Float.{Float, ◌≼◌, IsOrdered, IsMonotone, IsPower, nought, unity}
use mmp_meridian.Float.Order.{le_of_lt}
use mmp_meridian.Spread.Engine.{SpreadEngine, HuyArguments, prices_from_spreads, compute_levels_huy}
use mmp_meridian.Spread.Bounds.{IsLinspace, IsSided, mult_of, compute_levels_huy_sided}

abbrev pub price : {R : Type 0} ⦃f : Float R⦄ → R → R → R
price ⦃f⦄ mid s = f.mul mid (f.add unity (f.div s (f.decimal 100 0)))

module _ {R : Type 0} ⦃f : Float R⦄ (o : IsOrdered R) (m : IsMonotone R) where
  open f use {add, mul, div, lt, decimal}

  -- A greater spread is a higher price.
  price_mono : (mid s t : R) → nought ≼ mid → s ≼ t → price mid s ≼ price mid t
  price_mono mid s t h k =
      let hundred = decimal 100 0 in
      let inner =
        m.add_mono unity unity (div s hundred) (div t hundred) (o.le_refl unity)
          (m.div_mono s t hundred (o.decimal_pos 99 0 refl) k) in
      ground (
        arith,
        m.mul_comm mid (add unity (div s hundred)),
        m.mul_comm mid (add unity (div t hundred)),
        m.mul_mono (add unity (div s hundred)) (add unity (div t hundred)) mid h inner,
      )

  price-nought : (mid : R) → price mid nought ≡ mid
  price-nought mid =
      ap (λ z. mul mid (add unity z)) (m.zero-div (decimal 100 0) (o.decimal_pos 99 0 refl))
      ∙ ap (mul mid) (m.add-zero unity)
      ∙ m.mul_comm mid unity
      ∙ m.one-mul mid

  -- A spread that is not positive makes a price of at most the mid-price, and conversely.
  pub price_sided :
      (mid s : R)
      → nought ≼ mid
      → (s ≼ nought → price mid s ≼ mid) × (nought ≼ s → mid ≼ price mid s)
  price_sided mid s h = (
    λ k. subst (λ z. price mid s ≼ z) (price-nought mid) (price_mono mid s nought h k),
    λ k. subst (λ z. z ≼ price mid s) (price-nought mid) (price_mono mid nought s h k),
  )

  -- On an ordered, monotone arithmetic whose powers keep the sign, at a mid-price that is not
  -- negative, with spreads configured on their sides, a tightest sell spread that stays positive
  -- when it is scaled, and points of `linspace` that are not negative and as many as asked for,
  -- no buy price is above the mid-price and no sell price below it.
  prices_uncrossed :
      (w : IsPower R) (linspace : ℕ → List R) (n : IsLinspace linspace) (e : SpreadEngine R)
      (a : HuyArguments R) (mid : R)
      → nought ≼ mid
      → IsSided e.cfg
      → lt nought (mul e.cfg.sell_min_pct (mult_of a)) ≡ true
      → let spreads = compute_levels_huy linspace e a in
        let (buys, sells) = prices_from_spreads mid spreads.0 spreads.1 in
        All (λ p. p ≼ mid) buys × All (λ p. mid ≼ p) sells
  unfolding prices_from_spreads
  prices_uncrossed w linspace n e a mid h c k =
      let (b, s) = compute_levels_huy_sided o m w linspace n e a c k in
      (
        All-map _ _ (price mid) (λ x k. (price_sided mid x h).0 k) _ b,
        All-map _ _ (price mid) (λ x k. (price_sided mid x h).1 (le_of_lt o nought x k)) _ s,
      )
