-- ===== src/Fills/Simulator.antt =====
-- core/fill_simulator.py, on the order books of exchange/ws_connector.py. The book that a call works
-- on is consumed level by level: a method returns its fill and what is left of the book. The clock
-- answers by the number of fills made so far.
use mmp_meridian.Prelude.{
  ℕ, suc, Bool, true, false, not, ◌&&◌, ◌||◌, Option, none, some, String, List, [], ◌∷◌, ◌++◌, keep,
  length, if◌then◌else◌,
}
use mmp_meridian.Prelude.Sorting.{sorted}
use mmp_meridian.Float.{Float, nought, min}
use mmp_meridian.Exchange.{Order, Side, buy, sell}

-- A price and a quantity.
abbrev pub Level : Type 0 → Type 0
Level R = R × R

pub record OrderBook (R : Type 0) : Type 0 where
  pub exchange : String
  pub bids : List (Level R)
  pub asks : List (Level R)
  pub timestamp : R

pub record SimulatedFill (R : Type 0) : Type 0 where
  pub order_id : String
  pub exchange : String
  pub side : Side
  pub price : R
  pub amount : R
  pub fee : R
  pub filled_at : R
  pub pnl_usd : R
  pub book_timestamp : R

abbrev pub is_buy : Side → Bool
is_buy buy = true
is_buy sell = false

module _ {A : Type 0} where
  abbrev pub empty : List A → Bool
  empty [] = true
  empty (x ∷ xs) = false

module _ {R : Type 0} ⦃f : Float R⦄ where
  open f use {add, sub, mul, div, lt, le, decimal}

  abbrev head_price : List (Level R) → Option R
  head_price [] = none
  head_price ((p, q) ∷ ls) = some p

  abbrev best_bid : OrderBook R → Option R
  best_bid b = head_price b.bids

  abbrev best_ask : OrderBook R → Option R
  best_ask b = head_price b.asks

  abbrev middle : Option R → Option R → Option R
  middle (some bid) (some ask) = some (div (add bid ask) (decimal 2 0))
  middle _ _ = none

  unfoldable pub mid : OrderBook R → Option R
  mid b = middle (best_bid b) (best_ask b)

  -- The `while` loop over the levels. `beyond` says that the price of a level is worse than the
  -- order's, which ends the loop; an empty level is passed over; a level that is used up to 1e-12 is
  -- taken out.
  unfoldable pub sweep : (R → Bool) → R → R → List (Level R) → R × List (Level R)
  sweep beyond remaining filled [] = (filled, [])
  sweep beyond remaining filled ((p, q) ∷ ls) =
      let take = min remaining q in
      let rest = sub q take in
      let passed = sweep beyond remaining filled ls in
      let taken = sweep beyond (sub remaining take) (add filled take) ls in
      if not (lt nought remaining) || beyond p
      then (filled, (p, q) ∷ ls)
      else if le q nought
      then (passed.0, (p, q) ∷ passed.1)
      else if lt (decimal 1 12) rest
      then (taken.0, (p, rest) ∷ taken.1)
      else taken

  abbrev fill_of : R → Order R → R → R → R → R → SimulatedFill R
  fill_of fee_rate o filled_qty pnl now book_ts = record {
    order_id = o.id;
    exchange = o.exchange;
    side = o.side;
    price = o.price;
    amount = filled_qty;
    fee = mul (mul filled_qty o.price) fee_rate;
    filled_at = now;
    pnl_usd = pnl;
    book_timestamp = book_ts;
  }

  unfoldable pub try_fill_buy :
      R → Order R → List (Level R) → R → R → Option (SimulatedFill R) × List (Level R)
  unfolding sweep
  try_fill_buy fee_rate o [] book_ts now = (none, [])
  try_fill_buy fee_rate o ((ask, qty) ∷ asks) book_ts now =
      let swept = sweep (λ p. lt o.price p) o.amount nought ((ask, qty) ∷ asks) in
      if lt o.price ask
      then (none, (ask, qty) ∷ asks)
      else if le swept.0 nought
      then (none, swept.1)
      else (some (fill_of fee_rate (record o { side = buy }) swept.0 nought now book_ts), swept.1)

  unfoldable pub try_fill_sell :
      R → Order R → List (Level R) → R → R → R → Option (SimulatedFill R) × List (Level R)
  unfolding sweep
  try_fill_sell fee_rate o [] book_ts current_mid now = (none, [])
  try_fill_sell fee_rate o ((bid, qty) ∷ bids) book_ts current_mid now =
      let swept = sweep (λ p. lt p o.price) o.amount nought ((bid, qty) ∷ bids) in
      let fee = mul (mul swept.0 o.price) fee_rate in
      let pnl = sub (mul (sub o.price current_mid) swept.0) fee in
      if lt bid o.price
      then (none, (bid, qty) ∷ bids)
      else if le swept.0 nought
      then (none, swept.1)
      else (some (fill_of fee_rate (record o { side = sell }) swept.0 pnl now book_ts), swept.1)

  -- The loop over the orders of one side; `try` is one of the two methods above.
  unfoldable pub fill_each :
      (Order R → List (Level R) → R → Option (SimulatedFill R) × List (Level R))
      → (ℕ → R)
      → ℕ
      → List (Order R)
      → List (Level R)
      → List (SimulatedFill R)
  fill_each try clock n [] ls = []
  fill_each try clock n (o ∷ os) ls =
      let (tried, ls') = try o ls (clock n) in
      elim tried [
        | none ↦ fill_each try clock n os ls'
        | some x ↦ x ∷ fill_each try clock (suc n) os ls'
      ]

  unfoldable pub simulate : R → (ℕ → R) → List (Order R) → OrderBook R → R → List (SimulatedFill R)
  unfolding try_fill_buy try_fill_sell fill_each
  simulate fee_rate clock open_orders book current_mid =
      let buys = sorted (λ x y. lt y.price x.price) (keep (λ o. is_buy o.side) open_orders) in
      let sells =
        sorted (λ x y. lt x.price y.price) (keep (λ o. not (is_buy o.side)) open_orders) in
      let bought =
        fill_each (λ o ls now. try_fill_buy fee_rate o ls book.timestamp now) clock 0 buys
          book.asks in
      if empty open_orders || (empty book.bids && empty book.asks)
      then []
      else bought
        ++ fill_each (λ o ls now. try_fill_sell fee_rate o ls book.timestamp current_mid now) clock
            (length bought) sells book.bids
