-- ===== src/Regime/Master.antt =====
-- core/regime_master.py: the two classifiers reconciled, and the queues between the tasks.
use mmp_meridian.Prelude.{
  ℕ, String, Bool, true, false, not, ◌||◌, Option, none, some, List, [], ◌∷◌, ◌++◌, map, keep,
  length, ltb, ◌==◌, if◌then◌else◌,
}
use mmp_meridian.Float.{Float, nought}
use mmp_meridian.Quant.Aggressiveness.{ZzRegime, trending_up, trending_down, choppy, HmmRegime}
use mmp_meridian.Regime.Observation.{
  Regime, ranging, trending, high_vol, thin_book, Model, RegimeDetector, update_from_floats,
  get_regime, get_regime_confidence, fresh_detector,
}
use mmp_meridian.Regime.Parameters.{MmParameters, mm_parameters, conservative_params}

-- `asyncio.Queue`: `put_nowait` on a full queue raises, which the callers catch and log.
pub record Queue (A : Type 0) : Type 0 where
  pub maxsize : ℕ
  pub items : List A

unfoldable pub put_nowait : {A : Type 0} → A → Queue A → Queue A
put_nowait a q =
    if ltb (length q.items) q.maxsize then record q { items = q.items ++ a ∷ [] } else q

abbrev pub popleft : {A : Type 0} → Queue A → Queue A
popleft q = elim q.items [ [] ↦ q | x ∷ rest ↦ record q { items = rest } ]

pub record RegimeState (R : Type 0) : Type 0 where
  pub regime : Regime
  pub confidence : R
  pub zz_regime : ZzRegime
  agreement : Bool
  pub mm_params : MmParameters R
  pub timestamp : R

-- The state that the orchestrator broadcasts. The texts of the two regimes are constructors, none of
-- them empty, so that `zz_regime or "choppy"` is `zz_regime`.
pub record GlobalState (R : Type 0) : Type 0 where
  pub global_mid : R
  pub volatility : R
  pub aggressiveness : R
  pub zz_vol : R
  pub zz_regime : ZzRegime
  pub hmm_regime : HmmRegime
  pub hmm_regime_confidence : R
  pub timestamp : R
  pub contributing_exchanges : List String
  pub regime_state : Option (RegimeState R)

unfoldable pub zz_to_hmm_regime : ZzRegime → Regime
zz_to_hmm_regime trending_up = trending
zz_to_hmm_regime trending_down = trending
zz_to_hmm_regime choppy = ranging

abbrev regime_eq : Regime → Regime → Bool
regime_eq ranging ranging = true
regime_eq trending trending = true
regime_eq high_vol high_vol = true
regime_eq thin_book thin_book = true
regime_eq _ _ = false

abbrev without_zz : Regime → Bool
without_zz r = regime_eq r high_vol || regime_eq r thin_book

unfoldable pub regimes_agree : Regime → ZzRegime → Bool
unfolding zz_to_hmm_regime
regimes_agree hmm_regime zz_regime =
    if without_zz hmm_regime then true else regime_eq hmm_regime (zz_to_hmm_regime zz_regime)

-- What can happen to the master, in the order in which the event loop lets it happen. A bot that takes
-- the next state from its queue is `received`.
pub data Event (R : Type 0) : Type 0 where
  pushed : GlobalState R → Event R
  turn : Event R
  subscribed : ℕ → Queue (RegimeState R) → Event R
  unsubscribed : ℕ → Event R
  received : ℕ → Event R

-- The master, whose lock and whose task are left out: one task runs the loop.
pub record RegimeMaster (R V : Type 0) : Type 0 where
  pub detector : RegimeDetector V
  -- Each queue with a number for the identity of the object.
  pub subscriber_queues : List (ℕ × Queue (RegimeState R))
  pub current : RegimeState R
  pub pending_queue : Queue (GlobalState R)
  pub prev_mid : Option R

module _ {R : Type 0} ⦃f : Float R⦄ where
  open f use {sub, mul, div, lt, decimal}

  unfoldable pub default_regime_state : RegimeState R
  unfolding mm_parameters
  default_regime_state = record {
    regime = ranging;
    confidence = decimal 5 1;
    zz_regime = choppy;
    agreement = true;
    mm_params = mm_parameters ranging;
    timestamp = nought;
  }

  -- `RegimeMaster()`
  abbrev pub fresh_master : {V : Type 0} → Model R V → RegimeMaster R V
  fresh_master model = record {
    detector = fresh_detector model;
    subscriber_queues = [];
    current = default_regime_state;
    pending_queue = record { maxsize = 10; items = [] };
    prev_mid = none;
  }

  abbrev pub price_change_rate : Option R → R → R
  price_change_rate none global_mid = nought
  price_change_rate (some prev) global_mid =
      if lt nought prev then div (sub global_mid prev) prev else nought

  -- The state that `_process_state` makes of the two classifiers' answers.
  unfoldable pub reconcile : Regime → R → ZzRegime → R → RegimeState R
  unfolding regimes_agree mm_parameters conservative_params
  reconcile hmm_regime confidence zz_regime timestamp =
      let agreement = regimes_agree hmm_regime zz_regime in
      record {
        regime = hmm_regime;
        confidence = confidence;
        zz_regime = zz_regime;
        agreement = agreement;
        mm_params =
            if agreement || without_zz hmm_regime
            then mm_parameters hmm_regime
            else conservative_params;
        timestamp = timestamp;
      }

  module _ {V : Type 0} (model : Model R V) where
    unfoldable pub broadcast : RegimeState R → RegimeMaster R V → RegimeMaster R V
    unfolding put_nowait
    broadcast state m = record m {
      subscriber_queues = map (λ (i, q). (i, put_nowait state q)) m.subscriber_queues;
    }

    unfoldable pub process_state : GlobalState R → RegimeMaster R V → RegimeMaster R V
    unfolding update_from_floats reconcile broadcast
    process_state s m =
        let change = price_change_rate m.prev_mid s.global_mid in
        let d =
          update_from_floats model s.volatility (mul s.zz_vol (decimal 100 0)) nought nought change
            m.detector in
        let state =
          reconcile (get_regime model d) (get_regime_confidence model d) s.zz_regime s.timestamp in
        broadcast state (record m { detector = d; current = state; prev_mid = some s.global_mid })

    unfoldable pub push_state : GlobalState R → RegimeMaster R V → RegimeMaster R V
    unfolding put_nowait
    push_state s m = record m { pending_queue = put_nowait s m.pending_queue }

    -- One turn of `_regime_loop`; with an empty queue it is the turn that times out.
    unfoldable pub regime_loop_turn : RegimeMaster R V → RegimeMaster R V
    unfolding process_state
    regime_loop_turn m = elim m.pending_queue.items [
      | [] ↦ m
      | s ∷ rest ↦ process_state s (record m { pending_queue = popleft m.pending_queue })
    ]

    unfoldable pub add_subscriber : ℕ → Queue (RegimeState R) → RegimeMaster R V → RegimeMaster R V
    add_subscriber i q m = record m { subscriber_queues = m.subscriber_queues ++ (i, q) ∷ [] }

    unfoldable pub remove_subscriber : ℕ → RegimeMaster R V → RegimeMaster R V
    remove_subscriber i m = record m {
      subscriber_queues = keep (λ (j, q). not (j == i)) m.subscriber_queues;
    }

    -- A bot takes the first state of its queue.
    unfoldable pub receive : ℕ → RegimeMaster R V → RegimeMaster R V
    receive i m = record m {
      subscriber_queues = map (λ (j, q). (j, if j == i then popleft q else q)) m.subscriber_queues;
    }

    unfoldable pub handle : Event R → RegimeMaster R V → RegimeMaster R V
    unfolding push_state regime_loop_turn add_subscriber remove_subscriber receive
    handle (pushed s) m = push_state s m
    handle turn m = regime_loop_turn m
    handle (subscribed i q) m = add_subscriber i q m
    handle (unsubscribed i) m = remove_subscriber i m
    handle (received i) m = receive i m

    unfoldable pub run : List (Event R) → RegimeMaster R V → RegimeMaster R V
    unfolding handle
    run [] m = m
    run (e ∷ es) m = run es (handle e m)
