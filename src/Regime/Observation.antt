-- ===== src/Regime/Observation.antt =====
-- quant/regime_detector.py: the features of the market as one number, and the detector that reads it.
-- The vectors and matrices of numpy are functions of the operations a `Model` names.
use mmp_meridian.Prelude.{ℕ, ◌+◌, ◌*◌, Option, none, some, ltb, if◌then◌else◌}
use mmp_meridian.Float.{Float, nought, neg}

abbrev pv_size : ℕ
pv_size = 3

abbrev bas_size : ℕ
bas_size = 3

abbrev obi_size : ℕ
obi_size = 3

abbrev fr_size : ℕ
fr_size = 3

abbrev pcr_size : ℕ
pcr_size = 4

abbrev pub n_obs : ℕ
n_obs = pv_size * bas_size * obi_size * fr_size * pcr_size

unfoldable pub encode_observation : ℕ → ℕ → ℕ → ℕ → ℕ → ℕ
encode_observation pv bas obi fr pcr =
    pv * (bas_size * obi_size * fr_size * pcr_size)
    + bas * (obi_size * fr_size * pcr_size)
    + obi * (fr_size * pcr_size)
    + fr * pcr_size
    + pcr

module _ {R : Type 0} ⦃f : Float R⦄ where
  open f use {lt, le, decimal}

  unfoldable pub discretise_price_vol : R → ℕ
  discretise_price_vol vol =
      if lt vol (decimal 2 2) then 0 else if lt vol (decimal 5 2) then 1 else 2

  unfoldable pub discretise_bid_ask_spread : R → ℕ
  discretise_bid_ask_spread spread_pct =
      if lt spread_pct (decimal 1 1) then 0 else if lt spread_pct (decimal 5 1) then 1 else 2

  unfoldable pub discretise_ob_imbalance : R → ℕ
  discretise_ob_imbalance imbalance =
      if lt imbalance (neg (decimal 2 1)) then 0 else if lt (decimal 2 1) imbalance then 2 else 1

  unfoldable pub discretise_funding_rate : R → ℕ
  discretise_funding_rate rate =
      if lt rate (neg (decimal 1 4)) then 0 else if lt (decimal 1 4) rate then 2 else 1

  unfoldable pub discretise_price_change_rate : R → ℕ
  discretise_price_change_rate pct_change =
      if lt pct_change (neg (decimal 1 2))
      then 0
      else if lt pct_change nought
      then 1
      else if le pct_change (decimal 1 2)
      then 2
      else 3

  unfoldable pub observation_from_floats : R → R → R → R → R → ℕ
  unfolding encode_observation discretise_price_vol discretise_bid_ask_spread
      discretise_ob_imbalance discretise_funding_rate discretise_price_change_rate
  observation_from_floats price_vol bid_ask_spread_pct ob_imbalance funding_rate price_change_rate =
      encode_observation (discretise_price_vol price_vol)
        (discretise_bid_ask_spread bid_ask_spread_pct) (discretise_ob_imbalance ob_imbalance)
        (discretise_funding_rate funding_rate) (discretise_price_change_rate price_change_rate)

-- The four regimes in the order of their indices.
pub data Regime : Type 0 where
  ranging trending high_vol thin_book : Regime

-- numpy on beliefs `V`: the prior `pi`, `weigh b n` for `(b @ A) * B[:, n]`, the sum, the division of a
-- belief by a number, the regime of the first greatest entry and that entry.
pub record Model (R V : Type 0) : Type 0 where
  pub pi : V
  pub weigh : V → ℕ → V
  pub sum : V → R
  pub over : V → R → V
  pub argmax : V → Regime
  pub greatest : V → R
  -- 1e-300, which is not zero for a float.
  pub tiny : R

pub record RegimeDetector (V : Type 0) : Type 0 where
  pub belief : V
  pub last_obs : Option ℕ

abbrev pub fresh_detector : {R V : Type 0} → Model R V → RegimeDetector V
fresh_detector model = record { belief = model.pi; last_obs = none }

module _ {R V : Type 0} ⦃f : Float R⦄ (model : Model R V) where
  unfoldable pub update : ℕ → RegimeDetector V → RegimeDetector V
  update observation d =
      let updated = model.weigh d.belief observation in
      let denom = model.sum updated in
      if ltb observation n_obs
      then record {
        belief = if f.lt denom model.tiny then model.pi else model.over updated denom;
        last_obs = some observation;
      }
      else d

  unfoldable pub update_from_floats : R → R → R → R → R → RegimeDetector V → RegimeDetector V
  unfolding update observation_from_floats
  update_from_floats vol spread imbalance rate change d =
      update (observation_from_floats vol spread imbalance rate change) d

abbrev pub get_regime : {R V : Type 0} → Model R V → RegimeDetector V → Regime
get_regime model d = model.argmax d.belief

abbrev pub get_regime_confidence : {R V : Type 0} → Model R V → RegimeDetector V → R
get_regime_confidence model d = model.greatest d.belief
