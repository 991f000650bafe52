-- ===== src/Bot/Regimes.antt =====
-- The regime helpers of the bot: `_drain_regime_queue` and `_resolve_mm_params`.
use mmp_meridian.Prelude.{Option, none, some, List, [], ◌∷◌}
use mmp_meridian.Float.{Float}
use mmp_meridian.Regime.Observation.{ranging}
use mmp_meridian.Regime.Parameters.{MmParameters, mm_parameters}
use mmp_meridian.Regime.Master.{RegimeState, GlobalState}
use mmp_meridian.Bot.State.{Bot}

-- The loop of `get_nowait`: the last state that it gets, and nothing left in the queue.
abbrev latest_of : {A : Type 0} → Option A → List A → Option A
latest_of latest [] = latest
latest_of latest (a ∷ rest) = latest_of (some a) rest

-- `a or b` of two states that may be missing.
abbrev first_of : {A : Type 0} → Option A → Option A → Option A
first_of none b = b
first_of (some a) b = some a

module _ {R : Type 0} where
  unfoldable pub drain_regime_queue : Bot R → Bot R
  drain_regime_queue b = elim b.regime_queue [
    | none ↦ b
    | some q ↦ record b {
      regime_queue = some (record q { items = [] });
      current_regime_state = first_of (latest_of none q.items) b.current_regime_state;
    }
  ]

  -- The state whose parameters the bot uses.
  abbrev regime_in_use : GlobalState R → Bot R → Option (RegimeState R)
  regime_in_use s b = first_of b.current_regime_state s.regime_state

module _ {R : Type 0} ⦃f : Float R⦄ where
  unfoldable pub resolve_mm_params : GlobalState R → Bot R → MmParameters R
  unfolding mm_parameters
  resolve_mm_params s b = elim (regime_in_use s b) [
    | none ↦ mm_parameters ranging
    | some rs ↦ rs.mm_params
  ]
