-- ===== src/Backtest/Ladder.antt =====
-- What holds of the synthetic book.
use mmp_meridian.Prelude.{
  ℕ, zero, suc, ◌≤◌, ◌≡◌, refl, true, String, List, All, All-weaken, length, ap, by_test, arith,
}
use mmp_meridian.Prelude.Sorting.{IsSorted}
use mmp_meridian.Float.{Float, ◌≼◌, IsOrdered, IsMonotone, nought, max}
use mmp_meridian.Float.Order.{le-max_left, le_of_lt}
use mmp_meridian.Float.Signs.{le-add, mul_nonneg, div_nonneg}
use mmp_meridian.Exchange.{Candle}
use mmp_meridian.Fills.Simulator.{Level, OrderBook}
use mmp_meridian.Backtest.Book.{
  book_levels, ladder, spread_pct, half_spread, step_of, synthesise_book,
}

module _ {R : Type 0} ⦃f : Float R⦄ where
  -- The book of a candle.
  pub record IsUncrossed (mid : R) (b : OrderBook R) : Type 0 where
    pub bids_fall : IsSorted (λ x y. y.0 ≼ x.0) b.bids
    pub asks_rise : IsSorted (λ x y. x.0 ≼ y.0) b.asks
    pub bids_le : All (λ (l : Level R). l.0 ≼ mid) b.bids
    pub le_asks : All (λ (l : Level R). mid ≼ l.0) b.asks
    pub bid_count : length b.bids ≡ book_levels
    pub ask_count : length b.asks ≡ book_levels

module _ {R : Type 0} ⦃f : Float R⦄ (o : IsOrdered R) (m : IsMonotone R) where
  open f use {add, sub, mul, div, lt, le, decimal}

  -- A ladder whose prices go one way: `rel` is the order in which they come.
  module _ (away : R → R → R) (rel : R → R → Type 0) (best step : R) (pos : nought ≼ step)
      (goes : (a b : R) → a ≼ b → rel (away best a) (away best b)) where
    abbrev rung : ℕ → R
    rung i = mul (decimal i 0) step

    rung_mono : (i j : ℕ) → i ≤ j → rung i ≼ rung j
    rung_mono i j h =
        m.mul_mono (decimal i 0) (decimal j 0) step pos (o.decimal_le i 0 j 0 (ground (arith, h)))

    ladder-All :
        (i k left : ℕ) (qty : R)
        → i ≤ k
        → All (λ (l : Level R). rel (away best (rung i)) l.0) (ladder away best step k left qty)
    unfolding ladder
    ladder-All i k zero qty h = tt
    ladder-All i k (suc left) qty h = (
      goes (rung i) (rung k) (rung_mono i k h),
      ladder-All i (suc k) left (mul qty (decimal 85 2)) (omega (arith, h)),
    )

    ladder-IsSorted :
        (k left : ℕ) (qty : R)
        → IsSorted (λ (x : Level R) (y : Level R). rel x.0 y.0) (ladder away best step k left qty)
    unfolding ladder
    ladder-IsSorted k zero qty = tt
    ladder-IsSorted k (suc left) qty = (
      ladder-All k (suc k) left (mul qty (decimal 85 2)) (omega arith),
      ladder-IsSorted (suc k) left (mul qty (decimal 85 2)),
    )

    length-ladder : (k left : ℕ) (qty : R) → length (ladder away best step k left qty) ≡ left
    unfolding ladder
    length-ladder k zero qty = refl
    length-ladder k (suc left) qty = ap suc (length-ladder (suc k) left (mul qty (decimal 85 2)))

  half_nonneg : (c : Candle R) → nought ≼ c.close → nought ≼ half_spread c
  half_nonneg c h =
      div_nonneg o m (mul c.close (spread_pct c)) (decimal 2 0)
        (mul_nonneg o m c.close (spread_pct c) h (
          o.le_trans nought (decimal 1 3) (spread_pct c) (o.decimal_le 0 0 1 3 refl)
            (le-max_left o (decimal 1 3) _)))
        (o.decimal_pos 1 0 refl)

  -- One side: its order, a bound of its prices, its length.
  record Sided (before : Level R → Level R → Type 0) (bound : Level R → Type 0)
      (ls : List (Level R)) : Type 0 where
    in_order : IsSorted before ls
    bounded : All bound ls
    count : length ls ≡ book_levels

  bids_lem :
      (mid half step qty : R)
      → nought ≼ half
      → nought ≼ step
      → Sided (λ x y. y.0 ≼ x.0) (λ l. l.0 ≼ mid) (ladder sub (sub mid half) step 0 book_levels qty)
  bids_lem mid half step qty h k =
      let best = sub mid half in
      let goes = λ (a b : R) (e : a ≼ b). m.sub_mono best best b a (o.le_refl best) e in
      record {
        in_order = ladder-IsSorted sub (λ x y. y ≼ x) best step k goes 0 book_levels qty;
        bounded =
            All-weaken
              (λ (l : Level R). l.0 ≼ sub best (rung sub (λ x y. y ≼ x) best step k goes 0))
              (λ (l : Level R). l.0 ≼ mid) (ladder sub best step 0 book_levels qty)
              (λ l e.
                o.le_trans l.0 best mid (ground (arith, e, m.zero-mul step, m.sub-zero best)) (
                  ground (arith, m.sub-zero mid, m.sub_mono mid mid half nought (o.le_refl mid) h)))
              (ladder-All sub (λ x y. y ≼ x) best step k goes 0 0 book_levels qty (omega arith));
        count = length-ladder sub (λ x y. y ≼ x) best step k goes 0 book_levels qty;
      }

  asks_lem :
      (mid half step qty : R)
      → nought ≼ half
      → nought ≼ step
      → Sided (λ x y. x.0 ≼ y.0) (λ l. mid ≼ l.0) (ladder add (add mid half) step 0 book_levels qty)
  asks_lem mid half step qty h k =
      let best = add mid half in
      let goes = λ (a b : R) (e : a ≼ b). m.add_mono best best a b (o.le_refl best) e in
      record {
        in_order = ladder-IsSorted add ◌≼◌ best step k goes 0 book_levels qty;
        bounded =
            All-weaken (λ (l : Level R). add best (rung add ◌≼◌ best step k goes 0) ≼ l.0)
              (λ (l : Level R). mid ≼ l.0) (ladder add best step 0 book_levels qty)
              (λ l e.
                o.le_trans mid best l.0 (le-add o m mid half h)
                  (ground (arith, e, m.zero-mul step, m.add-zero best)))
              (ladder-All add ◌≼◌ best step k goes 0 0 book_levels qty (omega arith));
        count = length-ladder add ◌≼◌ best step k goes 0 book_levels qty;
      }

  -- On an ordered, monotone arithmetic the book of a candle with a positive close has twenty levels on
  -- each side, bids that fall from the close or below, and asks that rise from the close or above,
  -- whatever the range and the volume of the candle are.
  synthesise_book-IsUncrossed :
      (c : Candle R) (exchange : String)
      → lt nought c.close ≡ true
      → IsUncrossed c.close (synthesise_book c exchange)
  unfolding synthesise_book
  synthesise_book-IsUncrossed c exchange h =
      let close = c.close in
      let positive = le_of_lt o nought close h in
      let step_nonneg = mul_nonneg o m close (decimal 5 4) positive (o.decimal_le 0 0 5 4 refl) in
      let qty = div (max c.volume (decimal 1000 0)) (decimal book_levels 0) in
      let b = bids_lem close (half_spread c) (step_of c) qty (half_nonneg c positive) step_nonneg in
      let a = asks_lem close (half_spread c) (step_of c) qty (half_nonneg c positive) step_nonneg in
      by_test (IsUncrossed close) (le close nought) _ _
        (λ e. absurd (ground (arith, h, e, o.lt-eq-not-le nought close)))
        (λ e. record {
          bids_fall = b.in_order;
          asks_rise = a.in_order;
          bids_le = b.bounded;
          le_asks = a.bounded;
          bid_count = b.count;
          ask_count = a.count;
        })
