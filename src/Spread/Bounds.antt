-- ===== src/Spread/Bounds.antt =====
-- The levels of the two sides stay on their own sides of the mid-price.
use mmp_meridian.Prelude.{
  ℕ, suc, ap, ◌≡◌, refl, ◌∙◌, true, List, [], ◌∷◌, map, All, All-weaken, length, length-map, arith,
  if◌then◌else◌, by_test,
}
use mathlib.Core.Path.{subst}
use mmp_meridian.Float.{Float, ◌≼◌, IsOrdered, IsMonotone, IsPower, nought, unity, max, abs}
use mmp_meridian.Float.Order.{le_of_lt, lt_of_lt_of_le, le-max_left}
use mmp_meridian.Float.Signs.{le-add, add-le, sub_nonneg, sub_nonpos, mul_nonneg}
use mmp_meridian.Config.{SpreadConfig}
use mmp_meridian.MathUtils.{clip}
use mmp_meridian.Spread.Engine.{
  SpreadEngine, HuyArguments, compute_side_levels, enforce_min_step, push_levels,
  compute_levels_huy,
}

-- `linspace` answers as numpy's does: as many numbers as asked, none of them negative.
pub record IsLinspace {R : Type 0} ⦃f : Float R⦄ (linspace : ℕ → List R) : Type 0 where
  pub length_lem : (n : ℕ) → length (linspace n) ≡ n
  pub nonneg : (n : ℕ) → All (λ t. nought ≼ t) (linspace n)

module _ {R : Type 0} ⦃f : Float R⦄ (o : IsOrdered R) (m : IsMonotone R) (w : IsPower R) where
  open f use {add, sub, mul, div, lt, le, decimal, pow}

  mul_nonpos : (a b : R) → a ≼ nought → nought ≼ b → mul a b ≼ nought
  mul_nonpos a b h h' = subst (λ z. mul a b ≼ z) (m.zero-mul b) (m.mul_mono a nought b h' h)

  -- Each level of a side is at least as far from the mid-price as its tightest.
  pub sell_levels_above :
      (tightest widest g : R) (ts : List R)
      → tightest ≼ widest
      → All (λ t. nought ≼ t) ts
      → All (λ s. tightest ≼ s) (map (λ t. add tightest (mul (sub widest tightest) (pow t g))) ts)
  sell_levels_above tightest widest g [] h hs = tt
  sell_levels_above tightest widest g (t ∷ ts) h (h', hs) = (
    le-add o m tightest (mul (sub widest tightest) (pow t g)) (
        mul_nonneg o m (sub widest tightest) (pow t g) (sub_nonneg o m widest tightest h)
          (w.pow_nonneg t g h')),
    sell_levels_above tightest widest g ts h hs,
  )

  pub buy_levels_below :
      (tightest widest g : R) (ts : List R)
      → widest ≼ tightest
      → All (λ t. nought ≼ t) ts
      → All (λ s. s ≼ tightest) (map (λ t. add tightest (mul (sub widest tightest) (pow t g))) ts)
  buy_levels_below tightest widest g [] h hs = tt
  buy_levels_below tightest widest g (t ∷ ts) h (h', hs) = (
    add-le o m tightest (mul (sub widest tightest) (pow t g)) (
        mul_nonpos (sub widest tightest) (pow t g) (sub_nonpos o m widest tightest h)
          (w.pow_nonneg t g h')),
    buy_levels_below tightest widest g ts h hs,
  )

  sub_le : (a b : R) → nought ≼ b → sub a b ≼ a
  sub_le a b h = subst (λ z. sub a b ≼ z) (m.sub-zero a) (m.sub_mono a a b nought (o.le_refl a) h)

  push_levels-positive :
      (step prev : R) (levels : List R)
      → nought ≼ step
      → lt nought prev ≡ true
      → All (λ s. lt nought s ≡ true) levels
      → All (λ s. lt nought s ≡ true) (push_levels step prev levels)
  unfolding push_levels
  push_levels-positive step prev [] h p hs = tt
  push_levels-positive step prev (level ∷ levels) h p (h', hs) =
      let required = if lt nought prev then add prev step else sub prev step in
      let level' = if lt (abs (sub level prev)) step then required else level in
      let here : lt nought level' ≡ true =
        ground
          (arith, h', p, lt_of_lt_of_le o nought prev (add prev step) p (le-add o m prev step h)) in
      (here, push_levels-positive step level' levels h here hs)

  push_levels-nonpositive :
      (step prev : R) (levels : List R)
      → nought ≼ step
      → prev ≼ nought
      → All (λ s. s ≼ nought) levels
      → All (λ s. s ≼ nought) (push_levels step prev levels)
  unfolding push_levels
  push_levels-nonpositive step prev [] h p hs = tt
  push_levels-nonpositive step prev (level ∷ levels) h p (h', hs) =
      let required = if lt nought prev then add prev step else sub prev step in
      let level' = if lt (abs (sub level prev)) step then required else level in
      let here : level' ≼ nought = ground (
        arith,
        h',
        p,
        o.lt-eq-not-le nought prev,
        o.le_trans (sub prev step) prev nought (sub_le prev step h) p,
      ) in
      (here, push_levels-nonpositive step level' levels h here hs)

module _ {R : Type 0} ⦃f : Float R⦄ where
  open f use {mul, lt, decimal}

  length-push_levels :
      (step prev : R) (levels : List R) → length (push_levels step prev levels) ≡ length levels
  unfolding push_levels
  length-push_levels step prev [] = refl
  length-push_levels step prev (level ∷ levels) =
      let required = if lt nought prev then f.add prev step else f.sub prev step in
      ap suc (
        length-push_levels step (if lt (abs (f.sub level prev)) step then required else level)
          levels)

  length-enforce_min_step :
      (levels : List R) (step : R) → length (enforce_min_step levels step) ≡ length levels
  unfolding enforce_min_step
  length-enforce_min_step [] step = refl
  length-enforce_min_step (level ∷ levels) step =
      ground (arith, length-push_levels step level levels)

  stepped :
      (levels : List R) (step : R)
      → length (if lt nought step then enforce_min_step levels step else levels) ≡ length levels
  stepped levels step = ground (arith, length-enforce_min_step levels step)

  -- The configured spreads lie on their sides, the tightest nearer to the mid-price.
  abbrev pub IsSided : SpreadConfig R → Type 0
  IsSided c =
      (c.buy_min_pct ≼ c.buy_max_pct) × (c.buy_max_pct ≼ nought) × (c.sell_min_pct ≼ c.sell_max_pct)

  abbrev pub mult_of : HuyArguments R → R
  mult_of a = max (decimal 1 1) a.spread_mult

  -- If `linspace` answers with as many points as asked for, each side has as many levels as asked
  -- for.
  compute_levels_huy-length :
      (linspace : ℕ → List R) (n : IsLinspace linspace) (e : SpreadEngine R) (a : HuyArguments R)
      → let (buys, sells) = compute_levels_huy linspace e a in
        (length buys ≡ a.buy_levels) × (length sells ≡ a.sell_levels)
  unfolding compute_levels_huy compute_side_levels
  compute_levels_huy-length linspace n e a =
      let mult = mult_of a in
      let side = compute_side_levels linspace in
      let buys =
        side (mul e.cfg.buy_max_pct mult) (mul e.cfg.buy_min_pct mult) (clip a.buy_agg nought unity)
          a.buy_levels a.buy_curve_strength in
      let sells =
        side (mul e.cfg.sell_min_pct mult) (mul e.cfg.sell_max_pct mult)
          (clip a.sell_agg nought unity) a.sell_levels a.sell_curve_strength in
      (
        stepped buys a.buy_min_step
            ∙ length-map _ (linspace a.buy_levels)
            ∙ n.length_lem a.buy_levels,
        stepped sells a.sell_min_step
            ∙ length-map _ (linspace a.sell_levels)
            ∙ n.length_lem a.sell_levels,
      )

module _ {R : Type 0} ⦃f : Float R⦄ (o : IsOrdered R) (m : IsMonotone R) (w : IsPower R) where
  open f use {mul, lt, decimal}

  steps-positive :
      (step : R) (levels : List R)
      → All (λ s. lt nought s ≡ true) levels
      → All
          (λ s. lt nought s ≡ true)
          (if lt nought step then enforce_min_step levels step else levels)
  unfolding enforce_min_step
  steps-positive step [] h =
      by_test (All (λ s. lt nought s ≡ true)) (lt nought step) [] [] (λ e. tt) (λ e. tt)
  steps-positive step (level ∷ levels) (h, hs) =
      by_test (All (λ s. lt nought s ≡ true)) (lt nought step)
        (enforce_min_step (level ∷ levels) step) (level ∷ levels)
        (λ e.
          by_test (All (λ s. lt nought s ≡ true)) (f.le step nought) (level ∷ levels)
            (level ∷ push_levels step level levels) (λ e'. (h, hs))
            (λ e'.
              (h, push_levels-positive o m w step level levels (le_of_lt o nought step e) h hs)))
        (λ e. (h, hs))

  steps-nonpositive :
      (step : R) (levels : List R)
      → All (λ s. s ≼ nought) levels
      → All (λ s. s ≼ nought) (if lt nought step then enforce_min_step levels step else levels)
  unfolding enforce_min_step
  steps-nonpositive step [] h =
      by_test (All (λ s. s ≼ nought)) (lt nought step) [] [] (λ e. tt) (λ e. tt)
  steps-nonpositive step (level ∷ levels) (h, hs) =
      by_test (All (λ s. s ≼ nought)) (lt nought step) (enforce_min_step (level ∷ levels) step)
        (level ∷ levels)
        (λ e.
          by_test (All (λ s. s ≼ nought)) (f.le step nought) (level ∷ levels)
            (level ∷ push_levels step level levels) (λ e'. (h, hs))
            (λ e'.
              (h, push_levels-nonpositive o m w step level levels (le_of_lt o nought step e) h hs)))
        (λ e. (h, hs))

  mult_nonneg : (a : HuyArguments R) → nought ≼ mult_of a
  mult_nonneg a =
      o.le_trans nought (decimal 1 1) (mult_of a)
        (le_of_lt o nought (decimal 1 1) (o.decimal_pos 0 1 refl))
        (le-max_left o (decimal 1 1) a.spread_mult)

  -- On an ordered, monotone arithmetic whose powers keep the sign, with spreads configured on
  -- their sides, a tightest sell spread that stays positive when it is scaled, and points of
  -- `linspace` that are not negative and as many as asked for, no buy level is positive and each
  -- sell level is.
  pub compute_levels_huy_sided :
      (linspace : ℕ → List R) (n : IsLinspace linspace) (e : SpreadEngine R) (a : HuyArguments R)
      → IsSided e.cfg
      → lt nought (mul e.cfg.sell_min_pct (mult_of a)) ≡ true
      → let (buys, sells) = compute_levels_huy linspace e a in
        All (λ s. s ≼ nought) buys × All (λ s. lt nought s ≡ true) sells
  unfolding compute_levels_huy compute_side_levels
  compute_levels_huy_sided linspace n e a (b, b', s) h =
      let mult = mult_of a in
      let scale : (x y : R) → x ≼ y → mul x mult ≼ mul y mult =
        λ x y. m.mul_mono x y mult (mult_nonneg a) in
      (
        steps-nonpositive a.buy_min_step _ (
            All-weaken _ _ _
              (λ l k.
                o.le_trans l _ nought k
                  (mul_nonpos o m w e.cfg.buy_max_pct mult b' (mult_nonneg a)))
              (buy_levels_below o m w _ _ _ (linspace a.buy_levels) (scale _ _ b)
                (n.nonneg a.buy_levels))),
        steps-positive a.sell_min_step _ (
            All-weaken _ _ _ (λ l k. lt_of_lt_of_le o nought _ l h k)
              (sell_levels_above o m w _ _ _ (linspace a.sell_levels) (scale _ _ s)
                (n.nonneg a.sell_levels))),
      )
