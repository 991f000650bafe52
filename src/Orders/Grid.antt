-- ===== src/Orders/Grid.antt =====
-- The comparison of open orders with the desired grid: `_find_stale_orders`, `_has_order_near` and
-- `_find_missing_levels`.
use mmp_meridian.Prelude.{Bool, not, List, [], ◌∷◌, ◌++◌, any, keep, if◌then◌else◌}
use mmp_meridian.Float.{Float, max, abs}
use mmp_meridian.Exchange.{Order, Side, buy, sell}
use mmp_meridian.Orders.Monad.{OrderGrid}

-- A level of the grid: a price and a token amount.
abbrev pub Level : Type 0 → Type 0
Level R = R × R

module _ {A B : Type 0} where
  abbrev pub zip : List A → List B → List (A × B)
  zip [] ys = []
  zip (x ∷ xs) [] = []
  zip (x ∷ xs) (y ∷ ys) = (x, y) ∷ zip xs ys

module _ {R : Type 0} ⦃f : Float R⦄ where
  open f use {sub, mul, div, le, eq, decimal}

  -- `price` lies within PRICE_TOLERANCE_PCT of `desired`.
  unfoldable pub near : R → R → Bool
  near desired price =
      le (mul (div (abs (sub price desired)) (max desired (decimal 1 8))) (decimal 100 0))
        (decimal 3 2)

  abbrev pub desired_prices : OrderGrid R → List R
  desired_prices g = g.buy_prices ++ g.sell_prices

  abbrev pub matched : OrderGrid R → Order R → Bool
  matched g o = any (λ desired. near desired o.price) (desired_prices g)

  unfoldable pub find_stale_orders : OrderGrid R → List (Order R) → List (Order R)
  find_stale_orders g orders = keep (λ o. not (matched g o)) orders

  -- The keys of `{o.price: o for o in orders}`, after those in `seen`.
  unfoldable pub open_prices : List R → List (Order R) → List R
  open_prices seen [] = seen
  open_prices seen (o ∷ os) =
      open_prices (if any (λ p. eq p o.price) seen then seen else seen ++ o.price ∷ []) os

  unfoldable pub has_order_near : R → List R → Bool
  has_order_near target prices = any (near target) prices

  abbrev pub missing_of : Side → List R → List (Level R) → List (Side × R × R)
  missing_of side prices [] = []
  missing_of side prices ((price, amount) ∷ ls) =
      if has_order_near price prices
      then missing_of side prices ls
      else (side, price, amount) ∷ missing_of side prices ls

  unfoldable pub find_missing_levels : OrderGrid R → List (Order R) → List (Side × R × R)
  unfolding open_prices has_order_near
  find_missing_levels g orders =
      let prices = open_prices [] orders in
      missing_of buy prices (zip g.buy_prices g.buy_amounts)
      ++ missing_of sell prices (zip g.sell_prices g.sell_amounts)
