-- ===== src/Quant/Estimates.antt =====
-- What the volatility estimators promise.
use mmp_meridian.Prelude.{◌≤◌, ◌≡◌, ◌⊎◌, refl, true, List, [], ◌∷◌, All, length, ltb, arith}
use mmp_meridian.Prelude.Deque.{length-append_deque, length-extend_le}
use mmp_meridian.Float.{Float, ◌≼◌, IsOrdered, IsMonotone, nought, unity, max, neg}
use mmp_meridian.Float.Order.{le-max_right}
use mmp_meridian.Exchange.{Candle}
use mmp_meridian.Config.{VolatilityConfig}
use mmp_meridian.Quant.Aggressiveness.{ZzRegime, trending_up, trending_down, choppy, compute}
use mmp_meridian.Quant.Volatility.{
  Numerics, VolatilityEngine, returns_of, rolling_vol, valid_candles, trend_of, variance_of,
  zhang_zhang_vol, update_price, update_candle, update_candles, max_samples, max_candles,
}

-- What the estimators rely on: roots are not negative, and the standard deviation of zeros is 0.
pub record IsStatistics (R : Type 0) ⦃f : Float R⦄ (n : Numerics R) : Type 0 where
  pub sqrt_nonneg : (a : R) → nought ≼ a → nought ≼ n.sqrt a
  pub std-zeros : (xs : List R) → All (λ x. x ≡ nought) xs → n.std xs ≡ nought

-- What reaches the engine.
pub data Update (R : Type 0) : Type 0 where
  price : R → R → Update R
  candle : Candle R → Update R
  candles : List (Candle R) → Update R

module _ {R : Type 0} ⦃f : Float R⦄ (cfg : VolatilityConfig R) where
  open f use {lt, le, sub, div, decimal}

  unfoldable pub apply : Update R → VolatilityEngine R → VolatilityEngine R
  unfolding update_price update_candle update_candles
  apply (price p now) e = update_price cfg p now e
  apply (candle c) e = update_candle cfg c e
  apply (candles cs) e = update_candles cfg cs e

  unfoldable pub run : List (Update R) → VolatilityEngine R → VolatilityEngine R
  unfolding apply
  run [] e = e
  run (u ∷ us) e = run us (apply u e)

  abbrev pub IsBounded : VolatilityEngine R → Type 0
  IsBounded e = (length e.closes ≤ max_samples cfg) × (length e.candles ≤ max_candles cfg)

  apply-IsBounded : (u : Update R) (e : VolatilityEngine R) → IsBounded e → IsBounded (apply u e)
  unfolding apply
  apply-IsBounded (price p now) e (h, k) =
      ground (arith, h, k, length-append_deque (max_samples cfg) e.closes p h)
  apply-IsBounded (candle c) e (h, k) =
      ground (arith, h, k, length-append_deque (max_candles cfg) e.candles c k)
  apply-IsBounded (candles cs) e (h, k) = (h, length-extend_le (max_candles cfg) e.candles cs k)

  -- After any updates from a bounded engine the prices held are at most 60 for each minute of the
  -- window and ten more, and the candles at most one for each minute and five more.
  run-IsBounded :
      (us : List (Update R)) (e : VolatilityEngine R) → IsBounded e → IsBounded (run us e)
  unfolding run
  run-IsBounded [] e h = h
  run-IsBounded (u ∷ us) e h = run-IsBounded us (apply u e) (apply-IsBounded u e h)

  -- What a Zhang-Zhang estimate says of the engine that it leaves.
  pub record IsEstimate (vol : R) (regime : ZzRegime) (e e' : VolatilityEngine R) : Type 0 where
    pub nonneg : nought ≼ vol
    -- The buffers are kept.
    pub kept : (e'.closes ≡ e.closes) × (e'.candles ≡ e.candles)
    -- Without three candles, one of them valid, nothing is said and nothing remembered.
    pub silent :
        (ltb (length e.candles) 3 ≡ true) ⊎ (valid_candles e.candles ≡ [])
        → (vol ≡ nought) × (regime ≡ choppy) × (e' ≡ e)
    -- A trend is a remembered direction beyond the threshold.
    pub up : regime ≡ trending_up → lt cfg.trending_threshold e'.last_net_direction ≡ true
    pub down : regime ≡ trending_down → lt e'.last_net_direction (neg cfg.trending_threshold) ≡ true

  -- On ordered numbers with roots that are not negative: the estimate is not negative and the buffers
  -- are kept; without three candles, or without a valid one, the answer is 0 and choppy, and the
  -- engine is unchanged; a trend is reported only with a direction beyond the threshold, which is
  -- remembered.
  pub zhang_zhang_vol-IsEstimate :
      (o : IsOrdered R) (n : Numerics R)
      → IsStatistics R n
      → (e : VolatilityEngine R)
      → let ((vol, regime), e') = zhang_zhang_vol n cfg e in IsEstimate vol regime e e'
  unfolding zhang_zhang_vol trend_of
  zhang_zhang_vol-IsEstimate o n s e =
      let estimated =
        s.sqrt_nonneg (max (variance_of n (valid_candles e.candles)) nought)
          (le-max_right o _ nought) in
      ground (arith, estimated, o.le_refl nought)

  flat_returns :
      (m : IsMonotone R) (p x : R) (xs : List R)
      → lt nought p ≡ true
      → x ≡ p
      → All (λ y. y ≡ p) xs
      → All (λ r. r ≡ nought) (returns_of x xs)
  unfolding returns_of
  flat_returns m p x [] h e es = tt
  flat_returns m p x (y ∷ ys) h e (e', es) =
      (ground (arith, e, e', m.sub_self p, m.zero-div p h), flat_returns m p y ys h e' es)

  flat_vol :
      (m : IsMonotone R) (n : Numerics R) (s : IsStatistics R n) (p : R) (xs : List R)
      (e : VolatilityEngine R)
      → lt nought p ≡ true
      → e.closes ≡ xs
      → All (λ y. y ≡ p) xs
      → rolling_vol n e ≡ nought
  unfolding rolling_vol
  flat_vol m n s p [] e h k es = ground (arith, k)
  flat_vol m n s p (x ∷ xs) e h k (e', es) =
      ground (arith, k, s.std-zeros (returns_of x xs) (flat_returns m p x xs h e' es))

  -- On a monotone arithmetic whose standard deviation of zeros is 0: while all prices of
  -- the window are the same positive price, the volatility is 0 and the model is as aggressive as it
  -- can be, if the lower threshold is not negative.
  flat_market :
      (m : IsMonotone R) (n : Numerics R)
      → IsStatistics R n
      → (p : R) (e : VolatilityEngine R) → lt nought p ≡ true
      → All (λ y. y ≡ p) e.closes
      → nought ≼ cfg.low_threshold
      → (rolling_vol n e ≡ nought) × (compute cfg (rolling_vol n e) ≡ unity)
  unfolding compute
  flat_market m n s p e h es k =
      let flat = flat_vol m n s p e.closes e h refl es in (flat, ground (arith, flat, k))
