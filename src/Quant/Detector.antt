-- ===== src/Quant/Detector.antt =====
-- quant/hmm_regime.py: `HMMRegimeDetector`. hmmlearn is outside: a `Library` says what its Viterbi
-- decoding, its posteriors and its fit answer, where `none` is an exception.
use mathlib.Core.Option.{get_or}
use mmp_meridian.Prelude.{
  and_then, ℕ, ◌+◌, ◌%◌, Bool, true, false, ◌&&◌, Option, none, some, List, [], ◌∷◌, length, ltb,
  leb, ◌==◌, if◌then◌else◌,
}
use mmp_meridian.Prelude.Deque.{append, last_or}
use mmp_meridian.Float.{Float, nought, neg}
use mmp_meridian.Config.{HmmConfig}
use mmp_meridian.Quant.Aggressiveness.{
  HmmRegime, low_vol, normal, high_vol, high_vol_crash, recovery,
}

pub record Observation (R : Type 0) : Type 0 where
  pub zz_vol : R
  pub net_direction : R
  pub volume_change : R
  pub price_roc : R

-- `Mo` are the fitted models. `decode` answers with the last state of the sequence, `posterior` with
-- the last row of the posteriors at that state.
pub record Library (R Mo : Type 0) : Type 0 where
  pub build_model : Option Mo
  pub decode : Mo → List (Observation R) → Option ℕ
  pub posterior : Mo → List (Observation R) → ℕ → Option R
  pub fit : Mo → List (Observation R) → Option Mo

pub record HmmRegimeDetector (R Mo : Type 0) : Type 0 where
  pub observations : List (Observation R)
  pub current_regime : HmmRegime
  pub confidence : R
  obs_count : ℕ
  pub model : Option Mo

-- `HMM_REGIME_NAMES[state]`
unfoldable regime_of_index : ℕ → Option HmmRegime
regime_of_index n =
    if n == 0
    then some low_vol
    else if n == 1
    then some normal
    else if n == 2
    then some high_vol
    else if n == 3
    then some high_vol_crash
    else if n == 4
    then some recovery
    else none

-- `regime in ("HIGH_VOL_CRASH", "RECOVERY")`
abbrev pub is_crash_or_recovery : HmmRegime → Bool
is_crash_or_recovery high_vol_crash = true
is_crash_or_recovery recovery = true
is_crash_or_recovery low_vol = false
is_crash_or_recovery normal = false
is_crash_or_recovery high_vol = false

module _ {R : Type 0} ⦃f : Float R⦄ where
  open f use {lt, decimal}

  -- The rules on the latest observation.
  unfoldable pub fallback_decode : HmmRegime → Observation R → HmmRegime × R
  fallback_decode current latest =
      if lt (decimal 5 3) latest.zz_vol
        && lt latest.net_direction (neg (decimal 3 3))
        && lt latest.price_roc (neg (decimal 4 3))
      then (high_vol_crash, decimal 8 1)
      else if (lt (decimal 2 3) latest.zz_vol
            && lt (decimal 1 3) latest.net_direction
            && lt (decimal 1 3) latest.price_roc)
          && is_crash_or_recovery current
      then (recovery, decimal 7 1)
      else if lt (decimal 3 3) latest.zz_vol
      then (high_vol, decimal 7 1)
      else if lt latest.zz_vol (decimal 8 4)
      then (low_vol, decimal 8 1)
      else (normal, decimal 6 1)

module _ {R Mo : Type 0} ⦃f : Float R⦄ where
  abbrev pub fresh : Library R Mo → HmmRegimeDetector R Mo
  fresh lib = record {
    observations = [];
    current_regime = normal;
    confidence = nought;
    obs_count = 0;
    model = lib.build_model;
  }

  -- The `try` body of `_decode_regime`, each step of which can raise.
  unfoldable pub viterbi : Library R Mo → Mo → List (Observation R) → Option (HmmRegime × R)
  unfolding regime_of_index
  viterbi lib model observations = and_then (lib.decode model observations) λ current_state.
      and_then (lib.posterior model observations current_state)
        λ confidence. and_then (regime_of_index current_state) λ name. some (name, confidence)

  -- `latest` is the observation that `update` has just appended, and so the last row.
  unfoldable pub decode_regime :
      Library R Mo → Observation R → HmmRegimeDetector R Mo → HmmRegime × R
  unfolding fallback_decode viterbi
  decode_regime lib latest d =
      let fallback = fallback_decode d.current_regime (last_or latest d.observations) in
      elim d.model [
        | none ↦ fallback
        | some model ↦ get_or (viterbi lib model d.observations) fallback
      ]

  unfoldable pub refit : Library R Mo → HmmRegimeDetector R Mo → HmmRegimeDetector R Mo
  refit lib d = elim d.model [
    | none ↦ d
    | some model ↦ record d { model = some (get_or (lib.fit model d.observations) model) }
  ]

  module _ (lib : Library R Mo) (cfg : HmmConfig R) where
    abbrev pub is_ready : HmmRegimeDetector R Mo → Bool
    is_ready d = leb cfg.hmm_min_observations (length d.observations)

    -- The schema keeps `refit_interval` positive.
    abbrev is_refit_due : HmmRegimeDetector R Mo → Bool
    is_refit_due d =
        ltb 0 d.obs_count
        && (d.obs_count % cfg.refit_interval == 0)
        && leb cfg.hmm_min_observations (length d.observations)

    abbrev pub observe : Observation R → HmmRegimeDetector R Mo → HmmRegimeDetector R Mo
    observe obs d = record d {
      observations = append cfg.hmm_lookback d.observations obs;
      obs_count = d.obs_count + 1;
    }

    unfoldable pub classify : Observation R → HmmRegimeDetector R Mo → HmmRegimeDetector R Mo
    unfolding decode_regime refit
    classify obs d =
        let (regime, confidence) = decode_regime lib obs d in
        let decoded = record d { current_regime = regime; confidence = confidence } in
        if is_refit_due decoded then refit lib decoded else decoded

    -- `update`; what it returns is the `current_regime` of the new state.
    unfoldable pub update : Observation R → HmmRegimeDetector R Mo → HmmRegimeDetector R Mo
    unfolding classify
    update obs d = let seen = observe obs d in if is_ready seen then classify obs seen else seen

    unfoldable pub run : List (Observation R) → HmmRegimeDetector R Mo → HmmRegimeDetector R Mo
    unfolding update
    run [] d = d
    run (obs ∷ rest) d = run rest (update obs d)
