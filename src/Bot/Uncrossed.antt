-- ===== src/Bot/Uncrossed.antt =====
-- What holds of the grid that a tick computes.
use mmp_meridian.Prelude.{
  ℕ, ◌≡◌, true, All, All-map, length, length-map, ◌∙◌, Bool-cases, inl, inr, if◌then◌else◌,
}
use mmp_meridian.Float.{Float, ◌≼◌, IsOrdered, IsMonotone, IsPower, IsRounding, nought, max}
use mmp_meridian.Float.Order.{le_of_lt}
use mmp_meridian.Exchange.{Side}
use mmp_meridian.Quant.Aggressiveness.{HmmRegime, is_crash}
use mmp_meridian.Spread.Prices.{price_sided}
use mmp_meridian.Spread.Bounds.{IsLinspace, IsSided, compute_levels_huy_sided}
use mmp_meridian.Depth.Floor.{compute_amounts_lem}
use mmp_meridian.Regime.Parameters.{MmParameters}
use mmp_meridian.Regime.Master.{GlobalState}
use mmp_meridian.Bot.State.{Parts}
use mmp_meridian.Bot.Quotes.{tick_price, aggs_of, arguments_of, usd_amounts, crash_factor, quote_of}

module _ {R : Type 0} ⦃f : Float R⦄ (o : IsOrdered R) where
  open f use {lt, mul, div, round, decimal}

  -- The mid-price, rounded to the tick.
  abbrev pub anchor : R → R → R
  anchor mid tick = mul (round (div mid tick)) tick

  tick_price_mono :
      (m : IsMonotone R) (r : IsRounding R) (tick a b : R)
      → lt nought tick ≡ true
      → a ≼ b
      → anchor a tick ≼ anchor b tick
  tick_price_mono m r tick a b h k =
      m.mul_mono _ _ tick (le_of_lt o nought tick h)
        (r.round_mono (div a tick) (div b tick) (m.div_mono a b tick h k))

  -- On an ordered, monotone arithmetic whose powers keep the sign and whose `round` keeps the order,
  -- at a mid-price that is not negative and with a positive tick size: the prices of the grid never
  -- cross, no buy price is above the mid-price rounded to the tick and no sell price below it. The
  -- configured spreads lie on their sides, the tightest sell spread stays positive when it is scaled
  -- for the regime, and `linspace` answers with as many points as asked for, none of them negative.
  pub quote_uncrossed :
      (m : IsMonotone R) (w : IsPower R) (r : IsRounding R) (p : Parts R)
      → IsLinspace p.linspace
      → IsSided p.spread_engine.cfg
      → (s : GlobalState R) (mm : MmParameters R) (skew : R) → nought ≼ s.global_mid
      → lt nought p.config.spread.tick_size ≡ true
      → lt nought (mul p.spread_engine.cfg.sell_min_pct (max (decimal 1 1) mm.spread_mult)) ≡ true
      → let g = (quote_of p s mm skew).grid in
        let middle = anchor s.global_mid p.config.spread.tick_size in
        All (λ x. x ≼ middle) g.buy_prices × All (λ x. middle ≼ x) g.sell_prices
  unfolding quote_of arguments_of
  quote_uncrossed m w r p n c s mm skew h k e =
      let tick = p.config.spread.tick_size in
      let (buy_agg, sell_agg) = aggs_of p s in
      let (buys, sells) =
        compute_levels_huy_sided o m w p.linspace n p.spread_engine
          (arguments_of p buy_agg sell_agg mm.spread_mult) c e in
      (
        All-map _ _ (tick_price s.global_mid tick)
            (λ x below. tick_price_mono m r tick _ _ k ((price_sided o m s.global_mid x h).0 below))
            _ buys,
        All-map _ _ (tick_price s.global_mid tick)
            (λ x above.
              tick_price_mono m r tick _ _ k
                ((price_sided o m s.global_mid x h).1 (le_of_lt o nought x above)))
            _ sells,
      )

  abbrev pub floor_of : Parts R → HmmRegime → Side → R
  floor_of p regime side =
      let least = p.config.depth.min_order_usd in
      if is_crash regime then mul least (crash_factor p side) else least

  -- On an ordered, monotone arithmetic, if the factor that a crash applies to a side is not negative:
  -- a side has as many amounts as levels, each of at least the least order, which in a crash, and
  -- only then, is scaled by that factor too.
  pub usd_amounts_floor :
      (m : IsMonotone R) (p : Parts R) (regime : HmmRegime) (agg : R) (n : ℕ) (skew : R)
      (side : Side) (depth_mult : R)
      → nought ≼ crash_factor p side
      → let amounts = usd_amounts p regime agg n skew side depth_mult in
        (length amounts ≡ n) × All (λ a. floor_of p regime side ≼ a) amounts
  unfolding usd_amounts
  usd_amounts_floor m p regime agg n skew side depth_mult h =
      let c = p.config.depth in
      let (k, l) = compute_amounts_lem o p.total c agg n skew side c.min_step_usd depth_mult in
      elim (Bool-cases (is_crash regime)) [
        | inl e ↦ rw e (
          length-map _ _ ∙ k,
          All-map _ _ (λ a. mul a (crash_factor p side)) (λ a. m.mul_mono _ a _ h) _ l,
        )
        | inr e ↦ rw e (k, l)
      ]
