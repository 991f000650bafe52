-- ===== src/Inventory.antt =====
-- core/inventory_tracker.py: the drift of the balances from their start, and the skew it causes.
pub mod Skew
pub mod Limits
use mmp_meridian.Prelude.{
  ℕ, ◌≡◌, refl, Bool, true, false, ◌&&◌, not, Option, none, some, if◌then◌else◌, arith,
}
use mmp_meridian.Float.{Float, nought, unity, max, abs}
use mmp_meridian.MathUtils.{clip}
use mmp_meridian.Exchange.{Balance, Side, buy, sell}

abbrev is_buy : Side → Bool
is_buy buy = true
is_buy sell = false

pub record Tracker (R : Type 0) : Type 0 where
  pub initial_usd : Option R
  pub initial_token : Option R
  pub current_usd : R
  pub current_token : R
  pub drift_threshold : R
  pub max_position_tokens : R
  pub max_position_usd : R
  pub min_position_tokens : R

-- A snapshot for logging and the API.
pub record InventoryState (R : Type 0) : Type 0 where
  pub usd : R
  pub token : R
  pub initial_usd : R
  pub initial_token : R
  usd_drift_pct : R
  token_drift_pct : R
  pub skew_factor : R

module _ {R : Type 0} ⦃f : Float R⦄ where
  open f use {add, sub, mul, div, lt, le, eq, decimal}

  unfoldable pub create : R → R → R → Tracker R
  create max_position_tokens max_position_usd min_position_tokens = record {
    initial_usd = none;
    initial_token = none;
    current_usd = nought;
    current_token = nought;
    drift_threshold = decimal 10 2;
    max_position_tokens = max_position_tokens;
    max_position_usd = max_position_usd;
    min_position_tokens = min_position_tokens;
  }

  unfoldable pub record_initial : Balance R → Tracker R → Tracker R
  record_initial b t = record t { initial_usd = some b.usd; initial_token = some b.token }

  unfoldable set_initial_from_config : R → R → Tracker R → Tracker R
  set_initial_from_config usd token t = record t {
    initial_usd = some usd;
    initial_token = some token;
  }

  -- `update`, on the recorded initial balance.
  unfoldable pub update : Balance R → Tracker R → Tracker R
  unfolding record_initial
  update b t =
      let t' : Tracker R = elim t.initial_usd [ none ↦ record_initial b t | some _ ↦ t ] in
      record t' { current_usd = b.usd; current_token = b.token }

  abbrev drift : R → R → R
  drift current initial = div (sub current initial) initial

  unfoldable pub skew_from : R → Option R → R
  unfolding clip
  skew_from current none = unity
  skew_from current (some initial) =
      if le initial nought
      then unity
      else clip (sub unity (mul (drift current initial) (decimal 2 0))) (decimal 5 1) (decimal 2 0)

  unfoldable pub skew_factor : Tracker R → R
  unfolding skew_from
  skew_factor t = skew_from t.current_token t.initial_token

  -- `x or y` on an optional number: 0.0 counts as missing.
  abbrev pub or_else : Option R → R → R
  or_else none y = y
  or_else (some x) y = if eq x nought then y else x

  unfoldable pub state : Tracker R → InventoryState R
  unfolding skew_factor
  state t =
      let init_usd = or_else t.initial_usd nought in
      let init_token = or_else t.initial_token unity in
      record {
        usd = t.current_usd;
        token = t.current_token;
        initial_usd = init_usd;
        initial_token = init_token;
        usd_drift_pct = mul (div (sub t.current_usd init_usd) (max init_usd unity)) (decimal 100 0);
        token_drift_pct = mul (drift t.current_token init_token) (decimal 100 0);
        skew_factor = skew_factor t;
      }

  unfoldable pub exceeds : R → R → Option R → Bool
  exceeds threshold current none = false
  exceeds threshold current (some initial) =
      if le initial nought then false else le threshold (div (abs (sub current initial)) initial)

  unfoldable should_rebalance : Tracker R → Bool
  unfolding exceeds
  should_rebalance t = exceeds t.drift_threshold t.current_token t.initial_token

  unfoldable pub is_position_limit_reached : Side → R → R → Tracker R → Bool
  is_position_limit_reached side current_tokens token_price t =
      if le t.max_position_usd nought && le t.max_position_tokens nought
      then false
      else if is_buy side
          && lt nought t.max_position_usd
          && le t.max_position_usd (mul current_tokens token_price)
      then true
      else not (is_buy side)
        && lt nought t.min_position_tokens
        && le current_tokens t.min_position_tokens
