-- ===== src/Quant/Volatility.antt =====
-- quant/volatility.py: `VolatilityEngine`. The functions of math and numpy are a `Numerics`; numpy's
-- arithmetic on arrays is elementwise.
use mmp_meridian.Prelude.{
  ℕ, ◌+◌, ◌*◌, Bool, not, ◌||◌, ◌==◌, Option, none, some, List, [], ◌∷◌, map, keep, length, ltb,
  leb, if◌then◌else◌,
}
use mmp_meridian.Prelude.Deque.{append, extend, last_or}
use mmp_meridian.Float.{Float, nought, unity, max, neg, abs}
use mmp_meridian.Exchange.{Candle}
use mmp_meridian.Config.{VolatilityConfig}
use mmp_meridian.Quant.Aggressiveness.{ZzRegime, trending_up, trending_down, choppy}
use mmp_meridian.Quant.Detector.{Observation}

-- `math.log`, `math.sqrt`, `np.mean` and `np.std`.
pub record Numerics (R : Type 0) : Type 0 where
  pub log : R → R
  pub sqrt : R → R
  pub mean : List R → R
  pub std : List R → R

pub record VolatilityEngine (R : Type 0) : Type 0 where
  pub closes : List R
  pub candles : List (Candle R)
  pub last_update_s : R
  pub last_net_direction : R

-- `xs[:-1]` of a list that starts with `x`.
abbrev all_but_last : {A : Type 0} → A → List A → List A
all_but_last x [] = []
all_but_last x (y ∷ ys) = x ∷ all_but_last y ys

module _ {R : Type 0} ⦃f : Float R⦄ where
  open f use {add, sub, mul, div, lt, le, eq, decimal, pow}

  abbrev pub fresh_engine : VolatilityEngine R
  fresh_engine = record {
    closes = [];
    candles = [];
    last_update_s = nought;
    last_net_direction = nought;
  }

  -- `np.diff(xs) / xs[:-1]` of an array that starts with `x`.
  unfoldable pub returns_of : R → List R → List R
  returns_of x [] = []
  returns_of x (y ∷ ys) = div (sub y x) x ∷ returns_of y ys

  -- `standard deviation` of the returns, of three closes or more.
  unfoldable pub rolling_vol : Numerics R → VolatilityEngine R → R
  unfolding returns_of
  rolling_vol n e =
      if ltb (length e.closes) 3
      then nought
      else elim e.closes [ [] ↦ nought | x ∷ xs ↦ n.std (returns_of x xs) ]

  -- The guard of the loop over the candles.
  abbrev is_invalid : Candle R → Bool
  is_invalid c = le c.high nought || le c.low nought || le c.close nought || le c.open_price nought

  abbrev pub valid_candles : List (Candle R) → List (Candle R)
  valid_candles = keep (λ c. not (is_invalid c))

  abbrev hl_term : Numerics R → Candle R → R
  hl_term n c =
      if eq c.high c.low
      then nought
      else mul (decimal 5 1) (pow (n.log (div c.high c.low)) (decimal 2 0))

  abbrev co_value : Numerics R → Candle R → R
  co_value n c = n.log (div c.close c.open_price)

  abbrev co_term : Numerics R → Candle R → R
  co_term n c =
      mul (sub (mul (decimal 2 0) (n.log (decimal 2 0))) unity) (pow (co_value n c) (decimal 2 0))

  unfoldable pub trend_of : VolatilityConfig R → R → ZzRegime
  trend_of cfg net =
      if lt cfg.trending_threshold net
      then trending_up
      else if lt net (neg cfg.trending_threshold)
      then trending_down
      else if lt (abs net) cfg.choppy_threshold
      then choppy
      else choppy

  abbrev pub variance_of : Numerics R → List (Candle R) → R
  variance_of n valid = n.mean (map (λ c. sub (hl_term n c) (co_term n c)) valid)

  -- The estimate, the regime and the engine with the cached direction. The lists of terms are empty
  -- exactly if no candle is valid.
  unfoldable pub zhang_zhang_vol :
      Numerics R → VolatilityConfig R → VolatilityEngine R → (R × ZzRegime) × VolatilityEngine R
  unfolding trend_of
  zhang_zhang_vol n cfg e =
      let valid = valid_candles e.candles in
      let net = n.mean (map (co_value n) valid) in
      let estimate = n.sqrt (max (variance_of n valid) nought) in
      if ltb (length e.candles) 3
      then ((nought, choppy), e)
      else if length valid == 0
      then ((nought, choppy), e)
      else ((estimate, trend_of cfg net), record e { last_net_direction = net })

  abbrev pub deviation : R → R → R
  deviation mean_vol latest_vol =
      if lt nought mean_vol then div (sub latest_vol mean_vol) mean_vol else nought

  unfoldable pub volume_change : Numerics R → List R → R
  volume_change n [] = nought
  volume_change n (v ∷ []) = nought
  volume_change n (v ∷ w ∷ rest) =
      deviation (n.mean (all_but_last v (w ∷ rest))) (last_or v (w ∷ rest))

  unfoldable pub price_roc : List R → R
  price_roc [] = nought
  price_roc (a ∷ []) = nought
  price_roc (a ∷ b ∷ rest) = div (sub (last_or a (b ∷ rest)) a) a

  abbrev pub positive : List R → List R
  positive = keep (λ a. lt nought a)

  unfoldable pub hmm_features :
      Numerics R
      → VolatilityConfig R
      → VolatilityEngine R
      → Option (Observation R) × VolatilityEngine R
  unfolding zhang_zhang_vol volume_change price_roc
  hmm_features n cfg e =
      let ((zz_vol, _), e') = zhang_zhang_vol n cfg e in
      if ltb (length e.candles) 3 then (none, e) else (
        some (record {
          zz_vol = zz_vol;
          net_direction = e'.last_net_direction;
          volume_change = volume_change n (positive (map (λ c. c.volume) e.candles));
          price_roc = price_roc (positive (map (λ c. c.close) e.candles));
        }),
        e',
      )

  module _ (cfg : VolatilityConfig R) where
    abbrev pub max_samples : ℕ
    max_samples = cfg.window_minutes * 60 + 10

    abbrev pub max_candles : ℕ
    max_candles = cfg.window_minutes + 5

    unfoldable pub update_price : R → R → VolatilityEngine R → VolatilityEngine R
    update_price price now e = record e {
      closes = append max_samples e.closes price;
      last_update_s = now;
    }

    unfoldable pub update_candle : Candle R → VolatilityEngine R → VolatilityEngine R
    update_candle c e = record e { candles = append max_candles e.candles c }

    unfoldable pub update_candles : List (Candle R) → VolatilityEngine R → VolatilityEngine R
    update_candles cs e = record e { candles = extend max_candles e.candles cs }

  abbrev pub is_ready : VolatilityEngine R → Bool
  is_ready e = leb 10 (length e.closes)

  abbrev candles_ready : VolatilityEngine R → Bool
  candles_ready e = leb 3 (length e.candles)
