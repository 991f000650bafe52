-- ===== src/Regime/Parameters.antt =====
-- The market-making parameters of a regime, from quant/regime_detector.py and core/regime_master.py.
use mmp_meridian.Float.{Float}
use mmp_meridian.Regime.Observation.{Regime, ranging, trending, high_vol, thin_book}

pub record MmParameters (R : Type 0) : Type 0 where
  pub spread_mult : R
  pub depth_mult : R
  pub aggressiveness : R
  pub inventory_skew : R

module _ {R : Type 0} ⦃f : Float R⦄ where
  open f use {decimal}

  -- `MM_PARAMETERS`
  unfoldable pub mm_parameters : Regime → MmParameters R
  mm_parameters ranging = record {
    spread_mult = decimal 10 1;
    depth_mult = decimal 10 1;
    aggressiveness = decimal 8 1;
    inventory_skew = decimal 0 1;
  }
  mm_parameters trending = record {
    spread_mult = decimal 15 1;
    depth_mult = decimal 7 1;
    aggressiveness = decimal 4 1;
    inventory_skew = decimal 2 1;
  }
  mm_parameters high_vol = record {
    spread_mult = decimal 30 1;
    depth_mult = decimal 3 1;
    aggressiveness = decimal 1 1;
    inventory_skew = decimal 0 1;
  }
  mm_parameters thin_book = record {
    spread_mult = decimal 20 1;
    depth_mult = decimal 5 1;
    aggressiveness = decimal 0 1;
    inventory_skew = decimal 0 1;
  }

  -- `_CONSERVATIVE_PARAMS`
  unfoldable pub conservative_params : MmParameters R
  conservative_params = record {
    spread_mult = decimal 20 1;
    depth_mult = decimal 5 1;
    aggressiveness = decimal 3 1;
    inventory_skew = decimal 0 1;
  }
