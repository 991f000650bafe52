-- ===== src/Backtest/Passive.antt =====
-- Orders that stay on their own side of the price of a candle, and what the simulator does with them.
use mmp_meridian.Prelude.{
  ℕ, suc, ◌≡◌, refl, ap, ◌∙◌, Bool, true, not, ◌||◌, ◌&&◌, Option, none, some, List, [], ◌∷◌, keep,
  All, All-append, All-keep, by_test, arith,
}
use mmp_meridian.Prelude.Sorting.{sorted, sorted-All}
use mmp_meridian.Float.{Float, ◌≼◌, IsOrdered, nought}
use mmp_meridian.Float.Order.{lt_of_le_of_lt, lt_of_lt_of_le}
use mmp_meridian.Exchange.{Order, Side, buy, sell}
use mmp_meridian.Orders.Grid.{zip}
use mmp_meridian.Fills.Simulator.{
  Level, OrderBook, empty, SimulatedFill, is_buy, try_fill_buy, try_fill_sell, fill_each, simulate,
}
use mmp_meridian.Backtest.Book.{Ticket, order_at, side_orders, make_grid_orders}

module _ {R : Type 0} ⦃f : Float R⦄ where
  open f use {lt, le}

  -- Buys at the price or below, sells at it or above.
  abbrev pub Passive : R → Side → R → Type 0
  Passive mid buy p = p ≼ mid
  Passive mid sell p = mid ≼ p

  abbrev pub IsPassive : R → Order R → Type 0
  IsPassive mid o = Passive mid o.side o.price

  -- The best price of a side lies strictly beyond the price.
  abbrev pub IsAbove : R → List (Level R) → Type 0
  IsAbove mid [] = Unit
  IsAbove mid ((p, q) ∷ ls) = lt mid p ≡ true

  abbrev pub IsBelow : R → List (Level R) → Type 0
  IsBelow mid [] = Unit
  IsBelow mid ((p, q) ∷ ls) = lt p mid ≡ true

  zip-All : (P : R → Type 0) (xs ys : List R) → All P xs → All (λ l. P l.0) (zip xs ys)
  zip-All P [] ys h = tt
  zip-All P (x ∷ xs) [] h = tt
  zip-All P (x ∷ xs) (y ∷ ys) (h, hs) = (h, zip-All P xs ys hs)

  side_orders-IsPassive :
      (mid : R) (t : Ticket) (side : Side) (i : ℕ) (levels : List (R × R))
      → All (λ l. Passive mid side l.0) levels
      → All (IsPassive mid) (side_orders t side i levels)
  unfolding side_orders
  side_orders-IsPassive mid t side i [] h = tt
  side_orders-IsPassive mid t side i ((p, a) ∷ levels) (h, hs) =
      let rest = side_orders-IsPassive mid t side (suc i) levels hs in
      let others = side_orders t side (suc i) levels in
      by_test (All (IsPassive mid)) (le p nought || le a nought) others
        (order_at t side i p a ∷ others) (λ _. rest) (λ _. (h, rest))

  pub make_grid_orders-IsPassive :
      (mid : R) (t : Ticket) (buy_prices buy_amounts sell_prices sell_amounts : List R)
      → All (λ p. p ≼ mid) buy_prices
      → All (λ p. mid ≼ p) sell_prices
      → All (IsPassive mid) (make_grid_orders t buy_prices buy_amounts sell_prices sell_amounts)
  unfolding make_grid_orders
  make_grid_orders-IsPassive mid t buy_prices buy_amounts sell_prices sell_amounts b s =
      All-append (IsPassive mid) (side_orders t buy 0 (zip buy_prices buy_amounts))
        (side_orders t sell 0 (zip sell_prices sell_amounts))
        (side_orders-IsPassive mid t buy 0 (zip buy_prices buy_amounts)
          (zip-All (λ p. p ≼ mid) buy_prices buy_amounts b))
        (side_orders-IsPassive mid t sell 0 (zip sell_prices sell_amounts)
          (zip-All (λ p. mid ≼ p) sell_prices sell_amounts s))

  -- The two sides of the passive orders.
  bought_below : (mid : R) (side : Side) (p : R) → is_buy side ≡ true → Passive mid side p → p ≼ mid
  bought_below mid buy p e h = h
  bought_below mid sell p e h = absurd (ground (arith, e))

  sold_above :
      (mid : R) (side : Side) (p : R) → not (is_buy side) ≡ true → Passive mid side p → mid ≼ p
  sold_above mid buy p e h = absurd (ground (arith, e))
  sold_above mid sell p e h = h

  -- Orders none of which is filled leave the list of fills empty.
  fill_each-idle :
      (try : Order R → List (Level R) → R → Option (SimulatedFill R) × List (Level R))
      (clock : ℕ → R) (n : ℕ) (os : List (Order R)) (ls : List (Level R))
      → All (λ o. (now : R) → try o ls now ≡ (none, ls)) os
      → fill_each try clock n os ls ≡ []
  unfolding fill_each
  fill_each-idle try clock n [] ls h = refl
  fill_each-idle try clock n (o ∷ os) ls (h, hs) =
      ap
        (λ tried. elim tried.0 [
          | none ↦ fill_each try clock n os tried.1
          | some x ↦ x ∷ fill_each try clock (suc n) os tried.1
        ])
        (h (clock n))
      ∙ fill_each-idle try clock n os ls hs

  module _ (o : IsOrdered R) where
    try_fill_buy-idle :
        (fee_rate : R) (mid : R) (a : Order R) (ls : List (Level R)) (book_ts now : R)
        → a.price ≼ mid
        → IsAbove mid ls
        → try_fill_buy fee_rate a ls book_ts now ≡ (none, ls)
    unfolding try_fill_buy
    try_fill_buy-idle fee_rate mid a [] book_ts now h k = refl
    try_fill_buy-idle fee_rate mid a ((p, q) ∷ ls) book_ts now h k =
        rw (lt_of_le_of_lt o a.price mid p h k) refl

    try_fill_sell-idle :
        (fee_rate : R) (mid : R) (a : Order R) (ls : List (Level R)) (book_ts current now : R)
        → mid ≼ a.price
        → IsBelow mid ls
        → try_fill_sell fee_rate a ls book_ts current now ≡ (none, ls)
    unfolding try_fill_sell
    try_fill_sell-idle fee_rate mid a [] book_ts current now h k = refl
    try_fill_sell-idle fee_rate mid a ((p, q) ∷ ls) book_ts current now h k =
        rw (lt_of_lt_of_le o p mid a.price k h) refl

    -- Passive orders against a book whose two sides lie strictly beyond the price are not filled.
    pub simulate-idle :
        (fee_rate : R) (clock : ℕ → R) (orders : List (Order R)) (book : OrderBook R) (mid : R)
        → All (IsPassive mid) orders
        → IsAbove mid book.asks
        → IsBelow mid book.bids
        → simulate fee_rate clock orders book mid ≡ []
    unfolding simulate
    simulate-idle fee_rate clock orders book mid h a b =
        let buys = keep (λ x. is_buy x.side) orders in
        let sells = keep (λ x. not (is_buy x.side)) orders in
        let buy_first : Order R → Order R → Bool = λ x y. lt y.price x.price in
        let sell_first : Order R → Order R → Bool = λ x y. lt x.price y.price in
        let try_buy = λ (x : Order R) (ls : List (Level R)) (now : R).
          try_fill_buy fee_rate x ls book.timestamp now in
        let try_sell = λ (x : Order R) (ls : List (Level R)) (now : R).
          try_fill_sell fee_rate x ls book.timestamp mid now in
        let none_bought : (n : ℕ)
            → fill_each try_buy clock n (sorted buy_first buys) book.asks ≡ [] =
          λ n. fill_each-idle try_buy clock n (sorted buy_first buys) book.asks (
            sorted-All buy_first _ buys (
              All-keep (IsPassive mid) _ (λ x. is_buy x.side)
                (λ x e k now.
                  try_fill_buy-idle fee_rate mid x book.asks book.timestamp now
                    (bought_below mid x.side x.price e k) a)
                orders h)) in
        let none_sold : (n : ℕ)
            → fill_each try_sell clock n (sorted sell_first sells) book.bids ≡ [] =
          λ n. fill_each-idle try_sell clock n (sorted sell_first sells) book.bids (
            sorted-All sell_first _ sells (
              All-keep (IsPassive mid) _ (λ x. not (is_buy x.side))
                (λ x e k now.
                  try_fill_sell-idle fee_rate mid x book.bids book.timestamp mid now
                    (sold_above mid x.side x.price e k) b)
                orders h)) in
        let nothing = empty orders || (empty book.bids && empty book.asks) in
        rw (none_bought 0, none_sold 0)
          (by_test (λ (fills : List (SimulatedFill R)). fills ≡ []) nothing [] [] (λ _. refl)
            (λ _. refl))
