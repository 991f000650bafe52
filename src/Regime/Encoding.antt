-- ===== src/Regime/Encoding.antt =====
-- The discretised features and their encoding.
use mmp_meridian.Prelude.{ℕ, ◌≤◌, ◌<◌, ◌≡◌, true, some, arith}
use mmp_meridian.Float.{Float, ◌≼◌, IsOrdered, nought, neg}
use mmp_meridian.Float.Order.{lt_of_le_of_lt}
use mmp_meridian.Regime.Observation.{
  n_obs, encode_observation, discretise_price_vol, discretise_bid_ask_spread,
  discretise_ob_imbalance, discretise_funding_rate, discretise_price_change_rate,
  observation_from_floats, Model, RegimeDetector, update, update_from_floats,
}

-- Features whose bins are in range and whose encodings agree are the same features; the first
-- needs no range.
pub encode_observation_injective :
    {pv bas obi fr pcr pv' bas' obi' fr' pcr' : ℕ}
    → bas < 3
    → obi < 3
    → fr < 3
    → pcr < 4
    → bas' < 3
    → obi' < 3
    → fr' < 3
    → pcr' < 4
    → encode_observation pv bas obi fr pcr ≡ encode_observation pv' bas' obi' fr' pcr'
    → (pv ≡ pv') × (bas ≡ bas') × (obi ≡ obi') × (fr ≡ fr') × (pcr ≡ pcr')
unfolding encode_observation
encode_observation_injective h1 h2 h3 h4 h1' h2' h3' h4' e =
    (omega arith, omega arith, omega arith, omega arith, omega arith)

encode-lt :
    {pv bas obi fr pcr : ℕ}
    → pv < 3
    → bas < 3
    → obi < 3
    → fr < 3
    → pcr < 4
    → encode_observation pv bas obi fr pcr < n_obs
unfolding encode_observation
encode-lt a b c d e = omega arith

module _ {R : Type 0} ⦃f : Float R⦄ where
  price_vol-lt : (v : R) → discretise_price_vol v < 3
  unfolding discretise_price_vol
  price_vol-lt v = ground arith

  bid_ask_spread-lt : (v : R) → discretise_bid_ask_spread v < 3
  unfolding discretise_bid_ask_spread
  bid_ask_spread-lt v = ground arith

  ob_imbalance-lt : (v : R) → discretise_ob_imbalance v < 3
  unfolding discretise_ob_imbalance
  ob_imbalance-lt v = ground arith

  funding_rate-lt : (v : R) → discretise_funding_rate v < 3
  unfolding discretise_funding_rate
  funding_rate-lt v = ground arith

  price_change_rate-lt : (v : R) → discretise_price_change_rate v < 4
  unfolding discretise_price_change_rate
  price_change_rate-lt v = ground arith

  observation-lt :
      (vol spread imbalance rate change : R)
      → observation_from_floats vol spread imbalance rate change < n_obs
  unfolding observation_from_floats
  observation-lt vol spread imbalance rate change =
      encode-lt (price_vol-lt vol) (bid_ask_spread-lt spread) (ob_imbalance-lt imbalance)
        (funding_rate-lt rate) (price_change_rate-lt change)

  -- Whatever the features, the detector takes the observation that they encode: none is out of the range
  -- of `B`'s columns, where `update` would ignore it.
  update_from_floats_seen :
      {V : Type 0} (model : Model R V) (vol spread imbalance rate change : R) (d : RegimeDetector V)
      → let seen = observation_from_floats vol spread imbalance rate change in
        (seen < n_obs)
        × ((update_from_floats model vol spread imbalance rate change d).last_obs ≡ some seen)
  unfolding update_from_floats update
  update_from_floats_seen model vol spread imbalance rate change d =
      let h = observation-lt vol spread imbalance rate change in (h, ground (arith, h))

  -- On ordered decimals a greater volatility, spread or price change never falls into a lower
  -- bin.
  discretise_mono :
      (o : IsOrdered R) (a b : R)
      → a ≼ b
      → (discretise_price_vol a ≤ discretise_price_vol b)
        × (discretise_bid_ask_spread a ≤ discretise_bid_ask_spread b)
        × (discretise_price_change_rate a ≤ discretise_price_change_rate b)
  unfolding discretise_price_vol discretise_bid_ask_spread discretise_price_change_rate
  discretise_mono o a b h =
      let below : (t : R) → f.lt b t ≡ true → f.lt a t ≡ true = λ t. lt_of_le_of_lt o a b t h in
      (
        ground (arith, below (f.decimal 2 2), below (f.decimal 5 2)),
        ground (arith, below (f.decimal 1 1), below (f.decimal 5 1)),
        ground (arith, below (neg (f.decimal 1 2)), below nought, o.le_trans a b (f.decimal 1 2) h),
      )
